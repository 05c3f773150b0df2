-- ===== src/Application/Query/Scope/Visible.antt =====
-- Application.Query.Scope.Visible: every attribute of a scope of application/query/binder.go is live and readable.
use flexitype.Prelude.{
  ℕ, zero, suc, ◌≡◌, refl, Bool, true, ◌&&◌, Option, none, some, List, [], ◌∷◌, ◌++◌, arith, ◌==◌,
  Option-cases, inl, inr,
}
use flexitype.Bytes.{Bytes, eq_bytes, eq_bytes_refl, eq_bytes→eq}
use flexitype.Keyed.{get, put}
use flexitype.Domain.Errors.Outcomes.{WhenOk, WhenOk-bind, WhenOk-chain, WhenOk-if}
use flexitype.Domain.Names.{Ulid}
use flexitype.Domain.TypeDef as TypeDef
use flexitype.Domain.TypeDef.{TypeDefinition}
use flexitype.Application.Access.{Access}
use flexitype.Application.Hierarchy.{chain, descendants}
use flexitype.Application.Query.Bound.{Attr, RelDef}
use flexitype.Application.Query.Scope.{
  Schema, Scope, Attrs, attributes_of, is_visible, add_attrs, add_types, scope_for, add_missing,
  add_links, link_attrs_for, scope_of, merge_name, merge_attrs, merge, traversal_scope,
}
use flexitype.Fql.Ast.{Direction, dir_child, dir_parent, dir_any}

-- Each attribute is visible and stands under its name.
unfoldable pub all_visible : Access → Attrs → Bool
unfolding eq_bytes
all_visible access [] = true
all_visible access ((name, a) ∷ attrs) =
    is_visible access a && eq_bytes name a.internal_name && all_visible access attrs

unfoldable pub links_visible : Access → Option Attrs → Bool
unfolding all_visible
links_visible access none = true
links_visible access (some attrs) = all_visible access attrs

pub all_visible-put :
    (access : Access) (name : Bytes) (a : Attr) (attrs : Attrs)
    → all_visible access attrs ≡ true
    → is_visible access a ≡ true
    → eq_bytes name a.internal_name ≡ true
    → all_visible access (put name a attrs) ≡ true
unfolding all_visible put
all_visible-put access name a [] h v e = ground arith
all_visible-put access name a ((k, b) ∷ attrs) h v e =
    ground (arith, all_visible-put access name a attrs)

pub get-IsVisible :
    (access : Access) (name : Bytes) (attrs : Attrs) (a : Attr)
    → all_visible access attrs ≡ true
    → get name attrs ≡ some a
    → (is_visible access a && eq_bytes name a.internal_name) ≡ true
unfolding all_visible get
get-IsVisible access name [] a h e = cc
get-IsVisible access name ((k, b) ∷ attrs) a h e =
    ground (arith, get-IsVisible access name attrs a, eq_bytes→eq name k)

all_visible-add_attrs :
    (access : Access) (declared : List Attr) (attrs : Attrs)
    → all_visible access attrs ≡ true
    → all_visible access (add_attrs access declared attrs) ≡ true
unfolding add_attrs
all_visible-add_attrs access [] attrs h = h
all_visible-add_attrs access (a ∷ as') attrs h = ground (
  arith,
  eq_bytes_refl a.internal_name,
  all_visible-put access a.internal_name a attrs h,
  all_visible-add_attrs access as' attrs h,
  all_visible-add_attrs access as' (put a.internal_name a attrs),
)

all_visible-add_missing :
    (access : Access) (declared : List Attr) (attrs : Attrs)
    → all_visible access attrs ≡ true
    → all_visible access (add_missing access declared attrs) ≡ true
unfolding add_missing
all_visible-add_missing access [] attrs h = h
all_visible-add_missing access (a ∷ as') attrs h = ground (
  arith,
  eq_bytes_refl a.internal_name,
  all_visible-put access a.internal_name a attrs h,
  all_visible-add_missing access as' attrs h,
  all_visible-add_missing access as' (put a.internal_name a attrs),
)

add_types-IsVisible :
    (access : Access) (schema : Schema) (ts : List TypeDefinition) (attrs : Attrs)
    → all_visible access attrs ≡ true
    → WhenOk (λ (type_ids, all). all_visible access all ≡ true) (add_types access schema ts attrs)
unfolding add_types
add_types-IsVisible access schema [] attrs h = h
add_types-IsVisible access schema (t ∷ ts) attrs h =
    WhenOk-if _ (TypeDef.is_archived t) _ _ (λ _. add_types-IsVisible access schema ts attrs h)
      λ _. WhenOk-bind _ (attributes_of schema t.id) _ λ declared _.
        WhenOk-chain (λ (type_ids, all). all_visible access all ≡ true) _
          (add_types access schema ts (add_attrs access declared attrs)) _
          (add_types-IsVisible access schema ts (add_attrs access declared attrs)
            (all_visible-add_attrs access declared attrs h))
          λ _ v. v

-- The scope holds attributes that are visible.
abbrev pub InView : Access → Scope → Type 0
InView access s = (all_visible access s.attrs && links_visible access s.link_attrs) ≡ true

-- The same, at a depth.
abbrev pub At : Access → ℕ → Scope → Type 0
At access depth s = InView access s × (s.depth ≡ depth)

pub scope_for-InView :
    (access : Access) (schema : Schema) (root : TypeDefinition) (depth : ℕ)
    → WhenOk (λ (s, row_types). At access depth s) (scope_for access schema root depth)
unfolding scope_for all_visible links_visible
scope_for-InView access schema root depth = WhenOk-bind _ (chain schema.types root) _ λ above _.
    WhenOk-bind _ (descendants schema.types root) _ λ subtypes _.
      WhenOk-chain (λ (type_ids, all). all_visible access all ≡ true) _
        (add_types access schema (above ++ subtypes) []) _
        (add_types-IsVisible access schema (above ++ subtypes) [] refl)
        λ (type_ids, all) v.
          WhenOk-bind _ (schema.relations_of type_ids) _ λ rels _. (ground arith, refl)

add_links-IsVisible :
    (access : Access) (schema : Schema) (left : ℕ) (current : RelDef) (attrs : Attrs)
    → all_visible access attrs ≡ true
    → WhenOk (λ all. all_visible access all ≡ true) (add_links access schema left current attrs)
unfolding add_links
add_links-IsVisible access schema zero current attrs h = h
add_links-IsVisible access schema (suc left) current attrs h =
    WhenOk-bind _ (attributes_of schema current.attribute_set_id) _ λ declared _.
      elim (Option-cases current.extends_id) [
        | inl e ↦ rw e (all_visible-add_missing access declared attrs h)
        | inr (base_id, e) ↦ rw e (
            WhenOk-bind _ (schema.relation base_id) _ λ base _.
              add_links-IsVisible access schema left base _
                (all_visible-add_missing access declared attrs h))
      ]

pub link_attrs_for-IsVisible :
    (access : Access) (schema : Schema) (def : RelDef)
    → WhenOk (λ all. all_visible access all ≡ true) (link_attrs_for access schema def)
unfolding link_attrs_for all_visible
link_attrs_for-IsVisible access schema def = add_links-IsVisible access schema 10 def [] refl

scope_of-InView :
    (access : Access) (schema : Schema) (depth : ℕ) (id : Ulid)
    → WhenOk (At access depth) (scope_of access schema depth id)
unfolding scope_of
scope_of-InView access schema depth id = WhenOk-bind _ (schema.types.get id) _ λ t _.
    WhenOk-chain (λ (s, row_types). At access depth s) _ (scope_for access schema t depth) _
      (scope_for-InView access schema t depth) λ _ h. h

merge_name-InView :
    (access : Access) (name : Bytes) (a : Attr) (taken : Option Attr) (depth : ℕ) (merged : Scope)
    → is_visible access a ≡ true
    → eq_bytes name a.internal_name ≡ true
    → At access depth merged
    → At access depth (merge_name name a taken merged)
unfolding merge_name
merge_name-InView access name a none depth merged v e (h, d) =
    (ground (arith, all_visible-put access name a merged.attrs), d)
merge_name-InView access name a (some existing) depth merged v e (h, d) =
    (ground arith, ground arith)

merge_attrs-InView :
    (access : Access) (other : Attrs) (depth : ℕ) (merged : Scope)
    → all_visible access other ≡ true
    → At access depth merged
    → At access depth (merge_attrs other merged)
unfolding merge_attrs all_visible
merge_attrs-InView access [] depth merged v h = h
merge_attrs-InView access ((name, a) ∷ other) depth merged v h =
    merge_attrs-InView access other depth _ (ground arith)
      (merge_name-InView access name a _ depth merged (ground arith) (ground arith) h)

pub traversal_scope-InView :
    (access : Access) (schema : Schema) (direction : Direction) (def : RelDef) (depth : ℕ)
    → WhenOk (At access depth) (traversal_scope access schema direction def depth)
unfolding traversal_scope merge
traversal_scope-InView access schema dir_child def depth = scope_of-InView access schema depth _
traversal_scope-InView access schema dir_parent def depth = scope_of-InView access schema depth _
traversal_scope-InView access schema dir_any def depth =
    WhenOk-chain (At access depth) _ (scope_of access schema depth def.parent_type_id) _
      (scope_of-InView access schema depth def.parent_type_id)
      λ merged h.
        WhenOk-if _ (def.child_type_id == def.parent_type_id) _ _ (λ _. h)
          λ _.
            WhenOk-chain (At access depth) _ (scope_of access schema depth def.child_type_id) _
              (scope_of-InView access schema depth def.child_type_id)
              λ other (v, d). merge_attrs-InView access other.attrs depth merged (ground arith) h
