-- ===== src/Domain/Relationship/Link/Pairs.antt =====
-- Domain.Relationship.Link.Pairs: a symmetric link is of an unordered pair, and a link obeys the version policies.
use Prim.{tt}
use flexitype.Prelude.{
  ◌≡◌, refl, Bool, true, false, ◌&&◌, ◌||◌, Option, none, some, List, [], ◌∷◌, arith, ◌==◌, ◌∙◌,
}
use flexitype.Prelude.Int.{ℤ, pos, lt_ℤ}
use flexitype.Bytes.{Bytes, eq_bytes}
use flexitype.Domain.Errors.{ok, ◌>>◌}
use flexitype.Domain.Errors.Outcomes.{WhenOk, WhenOk-guard, WhenOk-then, then_ok}
use flexitype.Domain.Names.{Ulid, EntityId, is_empty}
use flexitype.Domain.Relationship.Definition
use flexitype.Domain.Relationship.Definition.{VersionPolicy, latest, pinned, is_symmetric_kind}
use flexitype.Domain.Relationship.Link.{
  Relationship, LinkInput, Event, lt_bytes, check_pin, ordered_pair, link_under, create,
}

lt_bytes_asym : (a b : Bytes) → lt_bytes a b ≡ true → lt_bytes b a ≡ false
unfolding lt_bytes
lt_bytes_asym a [] h = cc
lt_bytes_asym [] (d ∷ ds) h = refl
lt_bytes_asym (c ∷ cs) (d ∷ ds) h = ground (arith, lt_bytes_asym cs ds)

-- The order is total.
lt_bytes_total : (a b : Bytes) → lt_bytes a b ≡ false → lt_bytes b a ≡ false → a ≡ b
unfolding lt_bytes
lt_bytes_total [] [] h k = refl
lt_bytes_total [] (d ∷ ds) h k = cc
lt_bytes_total (c ∷ cs) [] h k = cc
lt_bytes_total (c ∷ cs) (d ∷ ds) h k = ground (arith, lt_bytes_total cs ds)

ordered_pair_comm : (a b : EntityId) → ordered_pair true a b ≡ ordered_pair true b a
unfolding ordered_pair
ordered_pair_comm a b = ground (arith, lt_bytes_asym a b, lt_bytes_asym b a, lt_bytes_total a b)

eq_bytes_comm : (a b : Bytes) → eq_bytes a b ≡ eq_bytes b a
unfolding eq_bytes
eq_bytes_comm [] [] = refl
eq_bytes_comm [] (d ∷ ds) = refl
eq_bytes_comm (c ∷ cs) [] = refl
eq_bytes_comm (c ∷ cs) (d ∷ ds) = ground (arith, eq_bytes_comm cs ds)

or_comm : (a b : Bool) → (a || b) ≡ (b || a)
or_comm a b = ground arith

-- The ends the other way round; the pins stay on their sides.
abbrev pub swap_ends : LinkInput → LinkInput
swap_ends input = record input {
  parent_entity = input.child_entity;
  child_entity = input.parent_entity;
}

-- Under a symmetric definition the two ways to name a pair make the same link, with the same event, or are refused with
-- the same error: the pair is unordered.
pub link_under-swap_ends :
    (id : Ulid) (input : LinkInput) (now : ℤ) (d : Definition.Definition)
    → is_symmetric_kind d.kind ≡ true
    → link_under id (swap_ends input) now d ≡ link_under id input now d
unfolding link_under create
link_under-swap_ends id input now d h =
    rw
      (
        h,
        eq_bytes_comm input.child_entity input.parent_entity,
        or_comm (is_empty input.child_entity) (is_empty input.parent_entity),
        ordered_pair_comm input.child_entity input.parent_entity,
      )
      refl

-- A side that is pinned has a pin from 1 on, and one that follows the latest version has none.
abbrev pub ObeysPolicy : VersionPolicy → Option ℤ → Type 0
ObeysPolicy latest pin = pin ≡ none
ObeysPolicy pinned pin = (n : ℤ) × (pin ≡ some n) × (lt_ℤ n (pos 1) ≡ false)

check_pin-ObeysPolicy :
    (policy : VersionPolicy) (pin : Option ℤ)
    → check_pin policy pin ≡ ok tt
    → ObeysPolicy policy pin
unfolding check_pin
check_pin-ObeysPolicy latest none h = refl
check_pin-ObeysPolicy latest (some n) h = cc
check_pin-ObeysPolicy pinned none h = cc
check_pin-ObeysPolicy pinned (some n) h = (n, refl, ground arith)

-- What holds of a link that was just made under a definition.
pub record IsLinkOf (d : Definition.Definition) (r : Relationship) : Type 0 where
  pub parent_obeys : ObeysPolicy d.parent_version_policy r.parent_version
  pub child_obeys : ObeysPolicy d.child_version_policy r.child_version
  pub canonical : is_symmetric_kind d.kind ≡ true → lt_bytes r.child_entity r.parent_entity ≡ false
  pub two_ends :
      d.parent_type_id ≡ d.child_type_id → eq_bytes r.parent_entity r.child_entity ≡ false

ordered_pair_lem :
    (s : Bool) (a b : EntityId)
    → (s ≡ true → lt_bytes (ordered_pair s a b).1 (ordered_pair s a b).0 ≡ false)
      × (eq_bytes (ordered_pair s a b).0 (ordered_pair s a b).1 ≡ eq_bytes a b)
unfolding ordered_pair
ordered_pair_lem s a b = ground (arith, lt_bytes_asym b a, eq_bytes_comm a b)

create-IsLinkOf :
    (id : Ulid) (input : LinkInput) (now : ℤ) (d : Definition.Definition)
    → (eq_bytes input.parent_entity input.child_entity && d.parent_type_id == d.child_type_id)
      ≡ false
    → check_pin d.parent_version_policy input.parent_version ≡ ok tt
    → check_pin d.child_version_policy input.child_version ≡ ok tt
    → IsLinkOf d
        (create id d input now
          (ordered_pair (is_symmetric_kind d.kind) input.parent_entity input.child_entity)).0
unfolding create
create-IsLinkOf id input now d apart p c =
    let (order, same) =
      ordered_pair_lem (is_symmetric_kind d.kind) input.parent_entity input.child_entity in
    record {
      parent_obeys = check_pin-ObeysPolicy d.parent_version_policy input.parent_version p;
      child_obeys = check_pin-ObeysPolicy d.child_version_policy input.child_version c;
      canonical = order;
      two_ends = λ e. same ∙ ground arith;
    }

abbrev pub MakesLinkOf : Definition.Definition → Relationship × List Event → Type 0
MakesLinkOf d r = IsLinkOf d r.0

-- A link that Link makes obeys the version policies of its definition; under a symmetric definition its ends are in order;
-- and it joins two entities where the definition joins a type with itself.
pub link_under-IsLinkOf :
    (id : Ulid) (input : LinkInput) (now : ℤ) (d : Definition.Definition)
    → WhenOk (MakesLinkOf d) (link_under id input now d)
unfolding link_under
link_under-IsLinkOf id input now d =
    WhenOk-guard (MakesLinkOf d) (Definition.is_archived d) _ _ λ live.
      WhenOk-guard (MakesLinkOf d) (is_empty input.parent_entity || is_empty input.child_entity) _ _
        λ named.
          WhenOk-guard (MakesLinkOf d)
            (eq_bytes input.parent_entity input.child_entity && d.parent_type_id == d.child_type_id)
            _ _
            λ apart.
              WhenOk-then (MakesLinkOf d)
                (check_pin d.parent_version_policy input.parent_version
                  >> check_pin d.child_version_policy input.child_version)
                (ok (
                  create id d input now (
                    ordered_pair (is_symmetric_kind d.kind) input.parent_entity
                      input.child_entity)))
                λ pins.
                  create-IsLinkOf id input now d apart (then_ok _ _ pins).0 (then_ok _ _ pins).1
