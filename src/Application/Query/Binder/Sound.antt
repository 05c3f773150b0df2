-- ===== src/Application/Query/Binder/Sound.antt =====
-- Application.Query.Binder.Sound: the trees that application/query/binder.go binds, and what prepare returns.
use Prim.{tt}
use flexitype.Prelude.{
  ℕ, zero, suc, ◌+◌, ◌≡◌, refl, true, false, ◌&&◌, ◌||◌, not, some, List, [], ◌∷◌, arith, ltb,
  Option-cases, inl, inr,
}
use flexitype.Bytes.{Bytes, eq_bytes, eq_bytes→eq}
use flexitype.Keyed.{Keyed, get}
use flexitype.Domain.Errors.Outcomes.{WhenOk, WhenOk-bind, WhenOk-chain, WhenOk-if, WhenOk-guard}
use flexitype.Domain.Relationship.Definition.{is_symmetric_kind}
use flexitype.Application.Access.{
  Access, can_read, level, level_or, perm_none, hides, reads_everything,
}
use flexitype.Application.Hierarchy.{descendants}
use flexitype.Application.Query.Bound.{RelDef}
use flexitype.Application.Query.Scope.{
  Scope, Attrs, is_visible, traversal_scope, link_attrs_for, max_traversal_depth,
}
use flexitype.Application.Query.Scope.Visible.{
  all_visible, links_visible, At, traversal_scope-InView, link_attrs_for-IsVisible,
}
use flexitype.Application.Query.Fields.{
  Binder, is_type_field, is_none, is_any, bind_type_compare, bind_type_in, lookup_type, subtypes_of,
  type_ids,
}
use flexitype.Application.Query.Binder.{
  insert, sorted_names, bind_matches, crossing, inner_scope, bind, bind_all,
}
use flexitype.Fql.Ast.{
  Node, Nodes, logical, negated, comparison, in_values, in_range, has, string_match, matches,
  traversal, no_nodes, node, AggFunc, CompareOp, cmp_isa, cmp_eq, cmp_neq, Literal, Direction,
}
use flexitype.Application.Query.Binder.Shape.{all_readable, searches, is_bound, are_bound}
use flexitype.Application.Query.Binder.Conditions.{
  Bound, bind_compare-Bound, bind_in-Bound, bind_range-Bound, bind_has-Bound,
  bind_string_match-Bound,
}

insert-Readable :
    (access : Access) (n : Bytes) (ns : List Bytes)
    → (can_read access n && all_readable access ns) ≡ true
    → all_readable access (insert n ns) ≡ true
unfolding insert all_readable
insert-Readable access n [] h = ground arith
insert-Readable access n (m ∷ ms) h = ground (arith, insert-Readable access n ms)

sorted_names-Readable :
    (access : Access) (attrs : Attrs)
    → all_visible access attrs ≡ true
    → all_readable access (sorted_names attrs) ≡ true
unfolding sorted_names all_visible all_readable is_visible
sorted_names-Readable access [] h = refl
sorted_names-Readable access ((name, a) ∷ attrs) h = insert-Readable access name _ (
    let rest = sorted_names-Readable access attrs in
    let same = eq_bytes→eq name a.internal_name (ground arith) in rw same (ground arith))

hides-get :
    (attr : Keyed Bytes) (name p : Bytes)
    → hides attr ≡ false
    → get name attr ≡ some p
    → eq_bytes p perm_none ≡ false
unfolding hides get
hides-get [] name p h e = cc
hides-get ((k, q) ∷ attr) name p h e = ground (arith, hides-get attr name p)

-- A principal that reads everything has the level "none" nowhere.
reads_everything-ne-none :
    (access : Access) (name : Bytes)
    → reads_everything access ≡ true
    → (access.admin || not (eq_bytes (level access name) perm_none)) ≡ true
unfolding reads_everything level level_or
reads_everything-ne-none access name h = elim (Option-cases (get name access.attr)) [
  | inl e ↦ rw e (ground arith)
  | inr (p, e) ↦ rw e (ground (arith, hides-get access.attr name p))
]

bind_matches-Bound :
    (b : Binder) (name : Bytes) (s : Scope) (query : Bytes) (left : ℕ)
    → all_visible b.access s.attrs ≡ true
    → WhenOk (Bound b.access name left) (bind_matches b s query)
unfolding bind_matches is_bound searches
bind_matches-Bound b name s query left h = WhenOk-guard _ (not b.search_index) _ _ λ _.
    let names = sorted_names-Readable b.access s.attrs h in
    ground (arith, reads_everything-ne-none b.access name)

bind_type_compare-Bound :
    (b : Binder) (name : Bytes) (func : AggFunc) (op : CompareOp) (lit : Literal) (left : ℕ)
    → WhenOk (Bound b.access name left) (bind_type_compare b func op lit)
unfolding bind_type_compare subtypes_of is_bound
bind_type_compare-Bound b name func op lit left = WhenOk-guard _ (not (is_none func)) _ _ λ _.
    WhenOk-bind _ (lookup_type b.types_by_name lit) _ λ t _.
      WhenOk-if _ (eq_bytes op cmp_eq || eq_bytes op cmp_neq) _ _ (λ _. refl)
        λ _.
          WhenOk-if _ (eq_bytes op cmp_isa) _ _
            (λ _.
              WhenOk-bind _ (b.schema.types.get t.id) _
                λ root _. WhenOk-bind _ (descendants b.schema.types root) _ λ _ _. refl)
            λ _. tt

bind_type_in-Bound :
    (b : Binder) (name : Bytes) (lits : List Literal) (left : ℕ)
    → WhenOk (Bound b.access name left) (bind_type_in b lits)
unfolding bind_type_in is_bound
bind_type_in-Bound b name lits left = WhenOk-bind _ (type_ids b.types_by_name lits) _ λ _ _. refl

-- The definition that a traversal crosses.
abbrev Crossed : ℕ → Direction → RelDef → Type 0
Crossed depth direction def =
    (ltb max_traversal_depth (suc depth) ≡ false)
    × ((not (is_symmetric_kind def.kind) || is_any direction) ≡ true)

crossing-Crossed :
    (s : Scope) (direction : Direction) (name : Bytes)
    → WhenOk (Crossed s.depth direction) (crossing s direction name)
unfolding crossing
crossing-Crossed s direction name =
    WhenOk-guard _ (ltb max_traversal_depth (suc s.depth)) _ _ λ deep.
      elim (Option-cases (get name s.rels)) [
        | inl e ↦ rw e tt
        | inr (def, e) ↦ rw e (
            WhenOk-guard (Crossed s.depth direction)
              (is_symmetric_kind def.kind && not (is_any direction)) _ _ λ h. (deep, ground arith))
      ]

inner_scope-At :
    (b : Binder) (depth : ℕ) (s : Scope) (direction : Direction) (def : RelDef)
    → s.depth ≡ depth
    → WhenOk (At b.access (suc depth)) (inner_scope b s direction def)
unfolding inner_scope
inner_scope-At b depth s direction def d =
    WhenOk-chain (At b.access (suc s.depth)) _
      (traversal_scope b.access b.schema direction def (suc s.depth)) _
      (traversal_scope-InView b.access b.schema direction def (suc s.depth))
      λ inner (v, e).
        WhenOk-chain (λ all. all_visible b.access all ≡ true) _
          (link_attrs_for b.access b.schema def) _ (link_attrs_for-IsVisible b.access b.schema def)
          λ links h. (unfold links_visible in ground arith, ground arith)

mutual
  unfolding bind is_bound

  pub bind-Bound :
      (b : Binder) (name : Bytes) (depth left : ℕ) (s : Scope) (n : Node)
      → depth + left ≡ max_traversal_depth
      → At b.access depth s
      → WhenOk (Bound b.access name left) (bind b s n)
  bind-Bound b name depth left s (logical op exprs pos) e h =
      WhenOk-chain (λ all. are_bound b.access name left all ≡ true) _ (bind_all b s exprs) _
        (bind_all-Bound b name depth left s exprs e h) λ all v. v
  bind-Bound b name depth left s (negated expr pos) e h =
      WhenOk-chain (Bound b.access name left) _ (bind b s expr) _
        (bind-Bound b name depth left s expr e h) λ inner v. v
  bind-Bound b name depth left s (comparison func field op literal pos) e h =
      WhenOk-if _ (is_type_field field.scope) _ _
        (λ _. bind_type_compare-Bound b name func op literal left)
        λ _. bind_compare-Bound b name depth s h left func field op literal
  bind-Bound b name depth left s (in_values func field values pos) e h =
      WhenOk-if _ (is_type_field field.scope) _ _ (λ _. bind_type_in-Bound b name values left)
        λ _. bind_in-Bound b name depth s h left func field values
  bind-Bound b name depth left s (in_range func field lo hi pos) e h =
      bind_range-Bound b name depth s h left func field lo hi
  bind-Bound b name depth left s (has field pos) e h = bind_has-Bound b name depth s h left field
  bind-Bound b name depth left s (string_match kind field value pos) e h =
      bind_string_match-Bound b name depth s h left kind field value
  bind-Bound b name depth left s (matches query pos) e (v, d) =
      bind_matches-Bound b name s query left (ground arith)
  bind-Bound b name depth zero s (traversal direction relationship inner pos) e (v, d) =
      WhenOk-chain (Crossed s.depth direction) _ (crossing s direction relationship) _
        (crossing-Crossed s direction relationship) λ def (deep, kind). absurd (ground arith)
  bind-Bound b name depth (suc left) s (traversal direction relationship inner pos) e (v, d) =
      WhenOk-chain (Crossed s.depth direction) _ (crossing s direction relationship) _
        (crossing-Crossed s direction relationship)
        λ def (deep, kind).
          WhenOk-chain (At b.access (suc depth)) _ (inner_scope b s direction def) _
            (inner_scope-At b depth s direction def d)
            λ scope at.
              WhenOk-chain (Bound b.access name left) _ (bind b scope inner) _
                (bind-Bound b name (suc depth) left scope inner (omega arith) at)
                λ inside w. ground arith

  bind_all-Bound :
      (b : Binder) (name : Bytes) (depth left : ℕ) (s : Scope) (ns : Nodes)
      → depth + left ≡ max_traversal_depth
      → At b.access depth s
      → WhenOk (λ all. are_bound b.access name left all ≡ true) (bind_all b s ns)
  bind_all-Bound b name depth left s no_nodes e h = refl
  bind_all-Bound b name depth left s (node n ns) e h =
      WhenOk-chain (Bound b.access name left) _ (bind b s n) _
        (bind-Bound b name depth left s n e h)
        λ first v.
          WhenOk-chain (λ all. are_bound b.access name left all ≡ true) _ (bind_all b s ns) _
            (bind_all-Bound b name depth left s ns e h) λ rest w. ground arith
