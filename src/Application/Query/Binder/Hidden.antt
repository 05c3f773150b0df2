-- ===== src/Application/Query/Binder/Hidden.antt =====
-- Application.Query.Binder.Hidden: the attributes that the principal may not read, or that are archived, and the queries
-- of application/query.
use flexitype.Prelude.{
  ℕ, zero, suc, ◌≡◌, refl, ap, ◌∙◌, false, ◌&&◌, ◌||◌, map, length, ltb, List, [], ◌∷◌, ◌++◌,
  if◌then◌else◌, Option-cases, Bool-cases, inl, inr,
}
use flexitype.Bytes.{Bytes}
use flexitype.Keyed.{put}
use flexitype.Outcome.{Outcome}
use flexitype.Domain.Errors.{Result, ok, err, ◌>>=◌}
use flexitype.Domain.Errors.Outcomes.{bind-cong}
use flexitype.Domain.Names.{Ulid}
use flexitype.Domain.TypeDef as TypeDef
use flexitype.Domain.TypeDef.{TypeDefinition}
use flexitype.Application.Access.{Access}
use flexitype.Application.Hierarchy.{chain, descendants}
use flexitype.Application.Query.Bound.{Attr, RelDef}
use flexitype.Application.Query.Fields.{
  Binder, bind_compare, bind_in, bind_type_compare, subtypes_of, bind_type_in, bind_range, bind_has,
}
use flexitype.Application.Query.Binder.{
  bind_string_match, bind_matches, crossing, inner_scope, bind, bind_all, by_name, Interactor,
  prepare_tree, of_result, prepare_parsed, prepare_root, prepare,
}
use flexitype.Fql.Ast.{
  Node, Nodes, logical, negated, comparison, in_values, in_range, has, string_match, matches,
  traversal, no_nodes, node,
}
use flexitype.Fql.Query.{parse}
use flexitype.Application.Query.Scope.{
  Schema, Scope, Attrs, max_per_type, list_all_for_type, attributes_of, is_visible, add_attrs,
  add_types, scope_for, add_missing, add_links, link_attrs_for, scope_of, traversal_scope,
}
use flexitype.Fql.Ast.{Direction, dir_child, dir_parent, dir_any}

-- Another attribute in the place of one that is not visible.
unfoldable pub cover : Access → (Attr → Attr) → Attr → Attr
unfolding is_visible
cover access mask a = if is_visible access a then a else mask a

unfoldable pub cover_page : Access → (Attr → Attr) → Result (List Attr × ℕ) → Result (List Attr × ℕ)
unfolding cover
cover_page access mask (ok (items, total)) = ok (map (cover access mask) items, total)
cover_page access mask (err e) = err e

-- The schema with other attributes in the place of those that are not visible.
unfoldable pub hide : Access → (Attr → Attr) → Schema → Schema
unfolding cover_page
hide access mask schema = record schema {
  list_by_type_definition =
      λ id limit. cover_page access mask (schema.list_by_type_definition id limit);
}

length-map : (f : Attr → Attr) (items : List Attr) → length (map f items) ≡ length items
length-map f [] = refl
length-map f (a ∷ items) = ap (λ (n : ℕ). suc n) (length-map f items)

-- What list_all_for_type lists of a page, with the attributes replaced.
covered : Access → (Attr → Attr) → Result (List Attr) → Result (List Attr)
covered access mask (ok items) = ok (map (cover access mask) items)
covered access mask (err e) = err e

module _ (access : Access) (mask : Attr → Attr)
    (hidden : (a : Attr) → is_visible access (mask a) ≡ false) where
  add_attrs-cover :
      (items : List Attr) (attrs : Attrs)
      → add_attrs access (map (cover access mask) items) attrs ≡ add_attrs access items attrs
  unfolding add_attrs cover
  add_attrs-cover [] attrs = refl
  add_attrs-cover (a ∷ items) attrs = elim (Bool-cases (is_visible access a)) [
    | inl e ↦ rw (e, e) (add_attrs-cover items (put a.internal_name a attrs))
    | inr e ↦ rw (e, hidden a) (add_attrs-cover items attrs)
  ]

  add_missing-cover :
      (items : List Attr) (attrs : Attrs)
      → add_missing access (map (cover access mask) items) attrs ≡ add_missing access items attrs
  unfolding add_missing cover
  add_missing-cover [] attrs = refl
  add_missing-cover (a ∷ items) attrs = elim (Bool-cases (is_visible access a)) [
    | inl e ↦
        rw
          (
            e,
            e,
            add_missing-cover items attrs,
            add_missing-cover items (put a.internal_name a attrs),
          )
          refl
    | inr e ↦ rw (e, hidden a) (add_missing-cover items attrs)
  ]

  -- The cap counts the attributes that are not visible, whatever they are.
  list_all_for_type-cover :
      (page : Result (List Attr × ℕ))
      → list_all_for_type (λ limit. cover_page access mask page)
        ≡ covered access mask (list_all_for_type (λ limit. page))
  unfolding list_all_for_type cover_page covered
  list_all_for_type-cover (err e) = refl
  list_all_for_type-cover (ok (items, total)) =
      rw (length-map (cover access mask) items)
        (elim (Bool-cases
          (ltb max_per_type (length items) || ltb 0 total && ltb (length items) total)) [
            | inl e ↦ rw e refl
            | inr e ↦ rw e refl
          ])

  -- What is read of the attributes that a type declares.
  read-cover :
      {B : Type 0} (schema : Schema) (id : Ulid) (f g : List Attr → Result B)
      → ((items : List Attr) → f (map (cover access mask) items) ≡ g items)
      → (attributes_of (hide access mask schema) id >>= f) ≡ (attributes_of schema id >>= g)
  unfolding attributes_of hide covered
  read-cover schema id f g h =
      ap (λ r. r >>= f)
        (list_all_for_type-cover (schema.list_by_type_definition id (suc max_per_type)))
      ∙ go (attributes_of schema id)
    where
      go : (m : Result (List Attr)) → (covered access mask m >>= f) ≡ (m >>= g)
      go (ok items) = h items
      go (err e) = refl

module _ (access : Access) (mask : Attr → Attr)
    (hidden : (a : Attr) → is_visible access (mask a) ≡ false) (schema : Schema) where
  add_types-hide :
      (ts : List TypeDefinition) (attrs : Attrs)
      → add_types access (hide access mask schema) ts attrs ≡ add_types access schema ts attrs
  unfolding add_types
  add_types-hide [] attrs = refl
  add_types-hide (t ∷ ts) attrs = rw (add_types-hide ts attrs) (
      ap (λ r. if TypeDef.is_archived t then add_types access schema ts attrs else r)
        (read-cover access mask hidden schema t.id _ _ λ declared.
          rw
            (
              add_attrs-cover access mask hidden declared attrs,
              add_types-hide ts (add_attrs access declared attrs),
            )
            refl))

  scope_for-hide :
      (root : TypeDefinition) (depth : ℕ)
      → scope_for access (hide access mask schema) root depth ≡ scope_for access schema root depth
  unfolding scope_for hide
  scope_for-hide root depth = bind-cong (chain schema.types root) _ _ λ above.
      bind-cong (descendants schema.types root) _ _
        λ subtypes. rw (add_types-hide (above ++ subtypes) []) refl

  add_links-hide :
      (left : ℕ) (current : RelDef) (attrs : Attrs)
      → add_links access (hide access mask schema) left current attrs
        ≡ add_links access schema left current attrs
  unfolding add_links hide
  add_links-hide zero current attrs = refl
  add_links-hide (suc left) current attrs =
      read-cover access mask hidden schema current.attribute_set_id _ _ λ declared.
        elim (Option-cases current.extends_id) [
          | inl e ↦ rw e (ap ok (add_missing-cover access mask hidden declared attrs))
          | inr (base_id, e) ↦ rw e (
              bind-cong (schema.relation base_id) _ _ λ base.
                ap (add_links access (hide access mask schema) left base)
                  (add_missing-cover access mask hidden declared attrs)
                ∙ add_links-hide left base (add_missing access declared attrs))
        ]

  scope_of-hide :
      (depth : ℕ) (id : Ulid)
      → scope_of access (hide access mask schema) depth id ≡ scope_of access schema depth id
  unfolding scope_of hide
  scope_of-hide depth id = bind-cong (schema.types.get id) _ _ λ t. rw (scope_for-hide t depth) refl

  traversal_scope-hide :
      (direction : Direction) (def : RelDef) (depth : ℕ)
      → traversal_scope access (hide access mask schema) direction def depth
        ≡ traversal_scope access schema direction def depth
  unfolding traversal_scope
  traversal_scope-hide dir_child def depth = scope_of-hide depth _
  traversal_scope-hide dir_parent def depth = scope_of-hide depth _
  traversal_scope-hide dir_any def depth =
      rw (scope_of-hide depth def.parent_type_id, scope_of-hide depth def.child_type_id) refl

-- A binder over the schema with the other attributes.
unfoldable pub blind : (Attr → Attr) → Binder → Binder
unfolding hide
blind mask b = record b { schema = hide b.access mask b.schema }

inner_scope-blind :
    (b : Binder) (mask : Attr → Attr) (hidden : (a : Attr) → is_visible b.access (mask a) ≡ false)
    (s : Scope) (direction : Direction) (def : RelDef)
    → inner_scope (blind mask b) s direction def ≡ inner_scope b s direction def
unfolding inner_scope blind link_attrs_for
inner_scope-blind b mask hidden s direction def =
    rw (traversal_scope-hide b.access mask hidden b.schema direction def (suc s.depth)) (
      bind-cong (traversal_scope b.access b.schema direction def (suc s.depth)) _ _
        λ inner. rw (add_links-hide b.access mask hidden b.schema 10 def []) refl)

mutual
  unfolding bind blind hide bind_compare bind_in bind_type_compare subtypes_of bind_type_in
      bind_range bind_has bind_string_match bind_matches

  bind-blind :
      (b : Binder) (mask : Attr → Attr) (hidden : (a : Attr) → is_visible b.access (mask a) ≡ false)
      (s : Scope) (n : Node)
      → bind (blind mask b) s n ≡ bind b s n
  bind-blind b mask hidden s (logical op exprs pos) = rw (bind_all-blind b mask hidden s exprs) refl
  bind-blind b mask hidden s (negated expr pos) = rw (bind-blind b mask hidden s expr) refl
  bind-blind b mask hidden s (comparison func field op literal pos) = refl
  bind-blind b mask hidden s (in_values func field values pos) = refl
  bind-blind b mask hidden s (in_range func field lo hi pos) = refl
  bind-blind b mask hidden s (has field pos) = refl
  bind-blind b mask hidden s (string_match kind field value pos) = refl
  bind-blind b mask hidden s (matches query pos) = refl
  bind-blind b mask hidden s (traversal direction relationship inner pos) =
      bind-cong (crossing s direction relationship) _ _ λ def.
        rw (inner_scope-blind b mask hidden s direction def) (
          bind-cong (inner_scope b s direction def) _ _
            λ scope. rw (bind-blind b mask hidden scope inner) refl)

  bind_all-blind :
      (b : Binder) (mask : Attr → Attr) (hidden : (a : Attr) → is_visible b.access (mask a) ≡ false)
      (s : Scope) (ns : Nodes)
      → bind_all (blind mask b) s ns ≡ bind_all b s ns
  bind_all-blind b mask hidden s no_nodes = refl
  bind_all-blind b mask hidden s (node n ns) =
      rw (bind-blind b mask hidden s n)
        (bind-cong (bind b s n) _ _ λ first. rw (bind_all-blind b mask hidden s ns) refl)

-- The same interactor over the schema with the other attributes.
unfoldable pub blinded : (Attr → Attr) → Interactor → Interactor
unfolding hide
blinded mask i = record i { schema = hide i.access mask i.schema }

prepare_tree-blinded :
    (i : Interactor) (mask : Attr → Attr)
    (hidden : (a : Attr) → is_visible i.access (mask a) ≡ false) (root : TypeDefinition)
    (tree : Node)
    → prepare_tree (blinded mask i) root tree ≡ prepare_tree i root tree
unfolding prepare_tree blinded blind hide
prepare_tree-blinded i mask hidden root tree = bind-cong i.all_types _ _ λ all.
    rw (scope_for-hide i.access mask hidden i.schema root 0) (
      bind-cong (scope_for i.access i.schema root 0) _ _ λ (s, row_types).
        rw
          (bind-blind
            (record {
              search_index = i.search_index;
              access = i.access;
              schema = i.schema;
              texts = i.texts;
              families = i.families;
              types_by_name = by_name all [];
            })
            mask hidden s tree)
          refl)

-- What prepare answers, an error as well as a tree, does not depend on what the attributes are that are archived or that
-- the principal may not read: it is the same when each of them is replaced by any other that is not visible either.
-- Their number counts, for the cap of ListAllForType.
pub prepare-blinded :
    (i : Interactor) (mask : Attr → Attr)
    (hidden : (a : Attr) → is_visible i.access (mask a) ≡ false) (root_type query : Bytes)
    → prepare (blinded mask i) root_type query ≡ prepare i root_type query
unfolding prepare prepare_root prepare_parsed blinded
prepare-blinded i mask hidden root_type query = go (i.type_named root_type)
  where
    parsed :
        {E : Type 0} (root : TypeDefinition) (p : Outcome E Node)
        → prepare_parsed (blinded mask i) root p ≡ prepare_parsed i root p
    parsed root (Outcome.ok tree) = ap of_result (prepare_tree-blinded i mask hidden root tree)
    parsed root (Outcome.failed e) = refl
    parsed root Outcome.panicked = refl
    parsed root Outcome.out_of_fuel = refl

    go :
        (r : Result TypeDefinition) → prepare_root (blinded mask i) query r ≡ prepare_root i query r
    go (err e) = refl
    go (ok root) = parsed root (parse query)
