-- ===== src/Application/Query/Binder/Prepared.antt =====
-- Application.Query.Binder.Prepared: what prepare of application/query/interactor.go returns.
use Prim.{tt}
use flexitype.Prelude.{◌≤◌, ◌≢◌, ◌≡◌, refl, true, List}
use flexitype.Bytes.{Bytes}
use flexitype.Outcome.{Outcome, Ensures, holds, rejected}
use flexitype.Domain.Errors.{Result, ok, err}
use flexitype.Domain.Errors.Outcomes.{WhenOk, WhenOk-bind, WhenOk-chain}
use flexitype.Domain.Names.{Ulid}
use flexitype.Domain.TypeDef.{TypeDefinition}
use flexitype.Application.Access.{Access}
use flexitype.Application.Query.Bound.{crossings, BoundNode}
use flexitype.Application.Query.Scope.{scope_for, max_traversal_depth}
use flexitype.Application.Query.Scope.Visible.{At, scope_for-InView}
use flexitype.Application.Query.Binder.{
  bind, Interactor, prepare_tree, of_result, prepare_parsed, prepare_root, prepare,
}
use flexitype.Fql.Ast.{Node}
use flexitype.Fql.Query.{parse}
use flexitype.Application.Query.Binder.Shape.{is_bound}
use flexitype.Application.Query.Binder.Conditions.{Bound}
use flexitype.Application.Query.Binder.Sound.{bind-Bound}
use flexitype.Application.Query.Binder.Shape.{crossings-IsBound}
use flexitype.Fql.Query.Bounds.{parse_total}

-- A tree that is bound within the depth that traversals may nest.
abbrev pub Prepared : Access → Bytes → List Ulid × BoundNode → Type 0
Prepared access name r =
    (is_bound access name max_traversal_depth r.1 ≡ true) × (crossings r.1 ≤ max_traversal_depth)

prepare_tree-Bound :
    (i : Interactor) (name : Bytes) (root : TypeDefinition) (tree : Node)
    → WhenOk (Prepared i.access name) (prepare_tree i root tree)
unfolding prepare_tree
prepare_tree-Bound i name root tree = WhenOk-bind _ i.all_types _ λ all _.
    WhenOk-chain (λ (s, row_types). At i.access 0 s) _ (scope_for i.access i.schema root 0) _
      (scope_for-InView i.access i.schema root 0)
      λ (s, row_types) at.
        WhenOk-chain (Bound i.access name max_traversal_depth) _ (bind _ s tree) _
          (bind-Bound _ name 0 max_traversal_depth s tree refl at)
          λ t v. (v, crossings-IsBound i.access name max_traversal_depth t v)

returned {ℓ} :
    {A : Type ℓ} (P : A → Type 0) (r : Result A)
    → WhenOk P r
    → Ensures (λ e. Unit {0}) P (of_result r)
unfolding of_result
returned P (ok a) h = holds h
returned P (err e) h = rejected tt

prepare_parsed-Ensures :
    {E : Type 0} (i : Interactor) (name : Bytes) (root : TypeDefinition) (parsed : Outcome E Node)
    → parsed ≢ Outcome.out_of_fuel
    → parsed ≢ Outcome.panicked
    → Ensures (λ e. Unit {0}) (Prepared i.access name) (prepare_parsed i root parsed)
unfolding prepare_parsed of_result
prepare_parsed-Ensures i name root (Outcome.ok tree) f p =
    returned _ _ (prepare_tree-Bound i name root tree)
prepare_parsed-Ensures i name root (Outcome.failed e) f p = rejected tt
prepare_parsed-Ensures i name root Outcome.panicked f p = absurd (p refl)
prepare_parsed-Ensures i name root Outcome.out_of_fuel f p = absurd (f refl)

prepare_root-Ensures :
    (i : Interactor) (name query : Bytes) (root : Result TypeDefinition)
    → Ensures (λ e. Unit {0}) (Prepared i.access name) (prepare_root i query root)
unfolding prepare_root
prepare_root-Ensures i name query (err e) = rejected tt
prepare_root-Ensures i name query (ok root) =
    prepare_parsed-Ensures i name root (parse query) (parse_total query).0 (parse_total query).1

-- Preparing a query ends, with an error or a bound tree. In the tree, every attribute is live and one that the
-- principal may read, every value has the type that its condition compares, only ordered attributes are ordered, a
-- symmetric relationship is crossed by linked() alone, traversals nest at most 5 deep, and a full-text search is
-- confined to readable attributes, or it is not confined and the principal is an admin or has the level "none" on no
-- attribute: neither by an entry nor by its default.
pub prepare-Prepared :
    (i : Interactor) (root_type query name : Bytes)
    → Ensures (λ e. Unit {0}) (Prepared i.access name) (prepare i root_type query)
unfolding prepare
prepare-Prepared i root_type query name = prepare_root-Ensures i name query (i.type_named root_type)
