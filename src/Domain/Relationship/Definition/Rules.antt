-- ===== src/Domain/Relationship/Definition/Rules.antt =====
-- Domain.Relationship.Definition.Rules: what holds of every relationship definition that the operations reach.
use Prim.{tt}
use flexitype.Prelude.{
  ◌+◌, ◌≡◌, ◌≤◌, Bool, true, false, not, Option, none, some, List, [], arith, if◌then◌else◌,
}
use flexitype.Prelude.Int.{ℤ}
use flexitype.Domain.Errors.{ok, new_validation}
use flexitype.Domain.Errors.Outcomes.{WhenOk, WhenOk-ok, WhenOk-guard, WhenOk-then, WhenOk-bind}
use flexitype.Domain.Names.{Ulid, is_empty, is_internal_name}
use flexitype.Domain.TypeDef.{TypeDefinition}
use flexitype.Domain.Relationship.Definition.{
  Definition, Fields, NewInput, Event, Given, Kind, VersionPolicy, latest, is_symmetric_kind,
  check_symmetric, new_between, new, create, changed, update, archive, restore, is_archived,
  settle_policies, settle, check_extends, check_types, new_extending, new_checked, new_of_kind,
  new_with, update_checked, directed,
}

-- A definition that New has returned, or a successful call has left.
pub data Reachable : Definition → Type 0 where
  by_new :
      (id : Ulid) (input : NewInput) (now : ℤ) (d : Definition) (es : List Event)
      → new id input now ≡ ok (d, es)
      → Reachable d
  by_update :
      (f : Fields) (parent child : Given VersionPolicy) (now : ℤ) (c d : Definition)
      (es : List Event)
      → Reachable c
      → update f parent child now c ≡ ok (d, es)
      → Reachable d
  by_archive :
      (now : ℤ) (c d : Definition) (es : List Event)
      → Reachable c
      → archive now c ≡ ok (d, es)
      → Reachable d
  by_restore :
      (now : ℤ) (c d : Definition) (es : List Event)
      → Reachable c
      → restore now c ≡ ok (d, es)
      → Reachable d

-- An unordered pair has no sides: no version pins, no labels, no bounds on parents.
pub record IsSided (d : Definition) : Type 0 where
  pub unpinned :
      is_symmetric_kind d.kind ≡ true
      → (d.parent_version_policy ≡ latest) × (d.child_version_policy ≡ latest)
  pub unlabelled :
      is_symmetric_kind d.kind ≡ true → (d.fields.parent_label ≡ []) × (d.fields.child_label ≡ [])
  pub no_parent_bounds :
      is_symmetric_kind d.kind ≡ true
      → (d.fields.min_parents ≡ none) × (d.fields.max_parents ≡ none)
  pub named : (is_internal_name d.internal_name ≡ true) × (is_empty d.fields.display_name ≡ false)
  pub versioned : 1 ≤ d.version

abbrev LeavesValid : Definition × List Event → Type 0
LeavesValid r = IsSided r.0

keeps_rules :
    (d : Definition)
    → check_symmetric d.kind (d.parent_version_policy, d.child_version_policy) d.fields ≡ ok tt
    → is_internal_name d.internal_name ≡ true
    → is_empty d.fields.display_name ≡ false
    → 1 ≤ d.version
    → IsSided d
unfolding check_symmetric
keeps_rules d h name display v = ground arith

module _ (id : Ulid) (input : NewInput) (now : ℤ)
    (name : is_internal_name input.internal_name ≡ true)
    (display : is_empty input.fields.display_name ≡ false) where
  new_checked-IsSided :
      (parent_id child_id set_id : Ulid) (kind : Kind) (policies : VersionPolicy × VersionPolicy)
      → WhenOk LeavesValid (new_checked id input now parent_id child_id set_id kind policies)
  unfolding new_checked new_extending create
  new_checked-IsSided parent_id child_id set_id kind policies =
      WhenOk-then LeavesValid (check_symmetric kind policies input.fields)
        (new_extending id input now parent_id child_id set_id kind policies)
        λ rules.
          WhenOk-bind LeavesValid (check_extends kind parent_id child_id input.extends)
            (λ e. ok (create id input now parent_id child_id set_id kind policies e))
            λ e h.
              keeps_rules (create id input now parent_id child_id set_id kind policies e).0 rules
                name display (omega arith)

  new_between-IsSided :
      (parent child : Option TypeDefinition)
      → WhenOk LeavesValid (new_between id input now parent child)
  unfolding new_between new_with new_of_kind
  new_between-IsSided (some parent) (some child) =
      WhenOk-bind LeavesValid (check_types parent child input.attribute_set)
        (new_with id input now parent.id child.id)
        λ set_id h.
          WhenOk-bind LeavesValid
            (settle directed input.kind
              (new_validation "relationship kind must be directed or symmetric"))
            (new_of_kind id input now parent.id child.id set_id)
            λ kind k.
              WhenOk-bind LeavesValid
                (settle_policies latest latest input.parent_version_policy
                  input.child_version_policy)
                (new_checked id input now parent.id child.id set_id kind)
                λ policies l. new_checked-IsSided parent.id child.id set_id kind policies
  new_between-IsSided (some parent) none = tt
  new_between-IsSided none child = tt

new-IsSided : (id : Ulid) (input : NewInput) (now : ℤ) → WhenOk LeavesValid (new id input now)
unfolding new
new-IsSided id input now =
    WhenOk-guard LeavesValid (not (is_internal_name input.internal_name)) _ _ λ name.
      WhenOk-guard LeavesValid (is_empty input.fields.display_name) _ _ λ display.
        new_between-IsSided id input now (ground arith) display input.parent_type input.child_type

either-IsSided :
    (b : Bool) (x y : Definition × List Event)
    → IsSided x.0
    → IsSided y.0
    → IsSided (if b then x else y).0
either-IsSided true x y h k = h
either-IsSided false x y h k = k

changed-IsSided :
    (f : Fields) (now : ℤ) (d : Definition) (policies : VersionPolicy × VersionPolicy)
    → IsSided d
    → is_empty f.display_name ≡ false
    → check_symmetric d.kind policies f ≡ ok tt
    → IsSided (changed f now d policies).0
unfolding changed
changed-IsSided f now d policies v display h =
    let d' : Definition = record d {
      fields = f;
      parent_version_policy = policies.0;
      child_version_policy = policies.1;
      version = d.version + 1;
      updated_at = now;
    } in
    either-IsSided _ _ _ v (keeps_rules d' h v.named.0 display (omega arith))

update-IsSided :
    (f : Fields) (parent child : Given VersionPolicy) (now : ℤ) (d : Definition)
    → IsSided d
    → WhenOk LeavesValid (update f parent child now d)
unfolding update update_checked
update-IsSided f parent child now d v = WhenOk-guard LeavesValid (is_archived d) _ _ λ live.
    WhenOk-guard LeavesValid (is_empty f.display_name) _ _ λ display.
      WhenOk-bind LeavesValid
        (settle_policies d.parent_version_policy d.child_version_policy parent child)
        (update_checked f now d)
        λ policies h.
          WhenOk-then LeavesValid (check_symmetric d.kind policies f)
            (ok (changed f now d policies))
            λ rules. changed-IsSided f now d policies v display rules

-- Every relationship definition that the operations reach has well-formed names and a version from 1 on; a symmetric one
-- pins no version, labels no side and bounds no parents.
pub Reachable-IsSided : (d : Definition) → Reachable d → IsSided d
unfolding archive restore
Reachable-IsSided _ (by_new id input now d es h) =
    WhenOk-ok LeavesValid _ (d, es) (new-IsSided id input now) h
Reachable-IsSided _ (by_update f parent child now c d es r h) =
    WhenOk-ok LeavesValid _ (d, es) (update-IsSided f parent child now c (Reachable-IsSided c r)) h
Reachable-IsSided _ (by_archive now c d es r h) = ground (arith, Reachable-IsSided c r)
Reachable-IsSided _ (by_restore now c d es r h) = ground (arith, Reachable-IsSided c r)
