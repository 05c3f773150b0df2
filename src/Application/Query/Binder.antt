-- ===== src/Application/Query/Binder.antt =====
-- Application.Query.Binder: `bind` of application/query/binder.go, and `prepare` of interactor.go.
pub mod Shape
pub mod Conditions
pub mod Sound
pub mod Prepared
pub mod Hidden
use flexitype.Prelude.{
  ℕ, suc, Bool, true, false, ◌&&◌, not, Option, none, some, List, [], ◌∷◌, ◌==◌, ltb, leb,
  if◌then◌else◌,
}
use flexitype.Bytes.{Bytes}
use flexitype.Keyed.{Keyed, get, put}
use flexitype.Outcome.{Outcome}
use flexitype.Domain.Errors.{Error, Result, ok, err, new_validation, ◌>>=◌}
use flexitype.Domain.Names.{Ulid}
use flexitype.Domain.TypeDef.{TypeDefinition}
use flexitype.Domain.Values.DataType.{is_textual}
use flexitype.Domain.Relationship.Definition.{is_symmetric_kind}
use flexitype.Application.Access.{Access, reads_everything}
use flexitype.Application.Hierarchy.{ids}
use flexitype.Application.Query.Bound.{
  RelDef, BoundNode, BoundNodes, bound_logical, bound_not, bound_string_match, bound_matches,
  bound_traversal, no_bound, bound,
}
use flexitype.Application.Query.Scope.{
  Schema, Scope, Attrs, scope_for, link_attrs_for, traversal_scope, max_traversal_depth,
}
use flexitype.Application.Query.Literals.{Texts, Families}
use flexitype.Application.Query.Fields.{
  Binder, is_type_field, is_any, resolve_field, bind_compare, bind_in, bind_range,
  bind_type_compare, bind_type_in, bind_has,
}
use flexitype.Fql.Ast.{
  Node, Nodes, logical, negated, comparison, in_values, in_range, has, string_match, matches,
  traversal, no_nodes, node, StringMatchKind, Field, Literal, Direction,
}
use flexitype.Fql.Query.{parse}

-- a < b, by bytes.
unfoldable pub before : Bytes → Bytes → Bool
before [] [] = false
before [] (d ∷ ds) = true
before (c ∷ cs) [] = false
before (c ∷ cs) (d ∷ ds) = let rest = before cs ds in if c == d then rest else ltb c d

unfoldable pub insert : Bytes → List Bytes → List Bytes
unfolding before
insert n [] = n ∷ []
insert n (m ∷ ms) = let later = insert n ms in if before m n then m ∷ later else n ∷ m ∷ ms

-- The names of the attributes, sorted.
unfoldable pub sorted_names : Attrs → List Bytes
unfolding insert
sorted_names [] = []
sorted_names ((name, a) ∷ attrs) = insert name (sorted_names attrs)

unfoldable pub bind_string_match : Scope → StringMatchKind → Field → Literal → Result BoundNode
unfolding resolve_field is_textual
bind_string_match s kind field value = do
  (attr, link) ← resolve_field field s
  if not (is_textual attr.data_type)
      then err (new_validation "the predicate requires a textual attribute")
      else ok (bound_string_match attr link kind value.text)

unfoldable pub bind_matches : Binder → Scope → Bytes → Result BoundNode
unfolding sorted_names reads_everything
bind_matches b s query =
    if not b.search_index
    then err (new_validation "matches() requires the search-index feature")
    else ok (
        bound_matches query
          (if reads_everything b.access then none else some (sorted_names s.attrs)))

-- The relationship that a traversal crosses.
unfoldable pub crossing : Scope → Direction → Bytes → Result RelDef
unfolding get
crossing s direction name =
    if ltb max_traversal_depth (suc s.depth)
    then err (new_validation "traversals nest at most 5 deep")
    else elim (get name s.rels) [
      | none ↦ err (new_validation "unknown relationship for this type")
      | some def ↦
          if is_symmetric_kind def.kind && not (is_any direction)
          then err (new_validation "the relationship is symmetric; traverse it with linked()")
          else ok def
    ]

-- The scope behind a traversal, with the attributes of the link.
unfoldable pub inner_scope : Binder → Scope → Direction → RelDef → Result Scope
unfolding traversal_scope link_attrs_for
inner_scope b s direction def = do
  inner ← traversal_scope b.access b.schema direction def (suc s.depth)
  links ← link_attrs_for b.access b.schema def
  ok (record inner { link_attrs = some links })

-- bind, and its loop over the expressions of an `and` or an `or`.
unfoldable mutual
  pub bind : Binder → Scope → Node → Result BoundNode
  bind b s (logical op exprs pos) = do all ← bind_all b s exprs; ok (bound_logical op all)
  bind b s (negated expr pos) = do inner ← bind b s expr; ok (bound_not inner)
  bind b s (comparison func field op literal pos) =
      if is_type_field field.scope
      then bind_type_compare b func op literal
      else bind_compare b s func field op literal
  bind b s (in_values func field values pos) =
      if is_type_field field.scope then bind_type_in b values else bind_in b s func field values
  bind b s (in_range func field lo hi pos) = bind_range b s func field lo hi
  bind b s (has field pos) = bind_has s field
  bind b s (string_match kind field value pos) = bind_string_match s kind field value
  bind b s (matches query pos) = bind_matches b s query
  bind b s (traversal direction relationship inner pos) = do
    def ← crossing s direction relationship
    scope ← inner_scope b s direction def
    inside ← bind b scope inner
    ok (bound_traversal def direction inside)

  pub bind_all : Binder → Scope → Nodes → Result BoundNodes
  bind_all b s no_nodes = ok no_bound
  bind_all b s (node n ns) = do first ← bind b s n; rest ← bind_all b s ns; ok (bound first rest)

-- typesByName.
unfoldable pub by_name : List TypeDefinition → Keyed TypeDefinition → Keyed TypeDefinition
unfolding put
by_name [] m = m
by_name (t ∷ ts) m = by_name ts (put t.internal_name t m)

-- What prepare uses of its interactor and its context.
pub record Interactor : Type 0 where
  pub search_index : Bool
  pub access : Access
  pub schema : Schema
  pub texts : Texts
  pub families : Families
  -- GetByInternalName and List, of the tenant.
  pub type_named : Bytes → Result TypeDefinition
  pub all_types : Result (List TypeDefinition)

-- The rest of prepare, behind the parser.
unfoldable pub prepare_tree : Interactor → TypeDefinition → Node → Result (List Ulid × BoundNode)
unfolding bind scope_for by_name ids
prepare_tree i root tree = do
  all ← i.all_types
  (s, row_types) ← scope_for i.access i.schema root 0
  tree' ←
      bind
        (record {
          search_index = i.search_index;
          access = i.access;
          schema = i.schema;
          texts = i.texts;
          families = i.families;
          types_by_name = by_name all [];
        })
        s tree
  ok (ids row_types, tree')

unfoldable pub of_result {ℓ} : {A : Type ℓ} → Result A → Outcome Error A
of_result (ok a) = Outcome.ok a
of_result (err e) = Outcome.failed e

-- A parser that neither returns nor fails does not exist, by the termination of `parse`.
unfoldable pub prepare_parsed :
    {E : Type 0}
    → Interactor
    → TypeDefinition
    → Outcome E Node
    → Outcome Error (List Ulid × BoundNode)
unfolding prepare_tree of_result
prepare_parsed i root (Outcome.ok tree) = of_result (prepare_tree i root tree)
prepare_parsed i root (Outcome.failed e) = Outcome.failed (new_validation "parse error")
prepare_parsed i root Outcome.panicked = Outcome.panicked
prepare_parsed i root Outcome.out_of_fuel = Outcome.out_of_fuel

unfoldable pub prepare_root :
    Interactor → Bytes → Result TypeDefinition → Outcome Error (List Ulid × BoundNode)
unfolding prepare_parsed parse
prepare_root i query (err e) = Outcome.failed e
prepare_root i query (ok root) = prepare_parsed i root (parse query)

-- prepare.
unfoldable pub prepare : Interactor → Bytes → Bytes → Outcome Error (List Ulid × BoundNode)
unfolding prepare_root
prepare i root_type query = prepare_root i query (i.type_named root_type)
