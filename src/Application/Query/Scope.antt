-- ===== src/Application/Query/Scope.antt =====
-- Application.Query.Scope: the names that a query may use, as application/query/binder.go assembles them from the
-- schema. The repositories are arguments.
pub mod Visible
pub mod Merged
use flexitype.Prelude.{
  ℕ, zero, suc, Bool, true, false, ◌&&◌, ◌||◌, not, Option, none, some, List, [], ◌∷◌, ◌++◌, ◌==◌,
  ltb, if◌then◌else◌, length,
}
use flexitype.Bytes.{Bytes}
use flexitype.Keyed
use flexitype.Keyed.{Keyed, get, put}
use flexitype.Domain.Errors.{Result, ok, err, new_validation, ◌>>=◌}
use flexitype.Domain.Names.{Ulid}
use flexitype.Domain.TypeDef as TypeDef
use flexitype.Domain.TypeDef.{TypeDefinition}
use flexitype.Domain.Attribute.Definition as Attribute
use flexitype.Application.Access.{Access, can_read}
use flexitype.Application.Hierarchy.{Types, chain, descendants}
use flexitype.Application.Query.Bound.{Attr, RelDef}
use flexitype.Fql.Ast.{Direction, dir_child, dir_parent, dir_any}

abbrev pub max_per_type : ℕ
max_per_type = 1000

-- ListAllForType of domain/attribute/listall.go, on the page and the total that the store answers for one more than
-- the cap.
unfoldable pub list_all_for_type : (ℕ → Result (List Attr × ℕ)) → Result (List Attr)
list_all_for_type list_by_type_definition = do
  (items, total) ← list_by_type_definition (suc max_per_type)
  if ltb max_per_type (length items) || ltb 0 total && ltb (length items) total
      then err (new_validation "type declares more attributes than one schema walk resolves")
      else ok items

-- What the binder reads of the schema: the types; a page of the attributes that a type declares, and their total; the
-- relationship definitions of the tenant that touch one of the types, as the repository lists them; and one of these.
pub record Schema : Type 0 where
  pub types : Types
  pub list_by_type_definition : Ulid → ℕ → Result (List Attr × ℕ)
  pub relations_of : List Ulid → Result (List RelDef)
  pub relation : Ulid → Result RelDef

-- The call of ListAllForType on the attributes of a type.
unfoldable pub attributes_of : Schema → Ulid → Result (List Attr)
unfolding list_all_for_type
attributes_of schema id = list_all_for_type (schema.list_by_type_definition id)

abbrev pub Attrs : Type 0
Attrs = Keyed Attr

abbrev pub Rels : Type 0
Rels = Keyed RelDef

-- scope. `link_attrs` is none outside a traversal, and `ambiguous` holds the names of the map.
pub record Scope : Type 0 where
  pub attrs : Attrs
  pub link_attrs : Option Attrs
  pub rels : Rels
  pub depth : ℕ
  pub ambiguous : Keyed Bool

-- Neither archived nor hidden from the principal.
unfoldable pub is_visible : Access → Attr → Bool
unfolding can_read
is_visible access a = not (Attribute.is_archived a) && can_read access a.internal_name

-- s.attrs[a.InternalName()] = a.Snapshot() for each visible attribute; a later one replaces an earlier one.
unfoldable pub add_attrs : Access → List Attr → Attrs → Attrs
unfolding is_visible put
add_attrs access [] attrs = attrs
add_attrs access (a ∷ as') attrs =
    let skipped = add_attrs access as' attrs in
    let added = add_attrs access as' (put a.internal_name a attrs) in
    if is_visible access a then added else skipped

-- The loop of scopeFor over the types: their live identifiers, and the attributes.
unfoldable pub add_types :
    Access → Schema → List TypeDefinition → Attrs → Result (List Ulid × Attrs)
unfolding add_attrs attributes_of
add_types access schema [] attrs = ok ([], attrs)
add_types access schema (t ∷ ts) attrs =
    let skipped = add_types access schema ts attrs in
    if TypeDef.is_archived t then skipped else do
      declared ← attributes_of schema t.id
      (type_ids, all) ← add_types access schema ts (add_attrs access declared attrs)
      ok (t.id ∷ type_ids, all)

-- s.rels[r.InternalName()] = r.Snapshot().
unfoldable pub add_rels : List RelDef → Rels → Rels
unfolding put
add_rels [] rels = rels
add_rels (r ∷ rs) rels = add_rels rs (put r.internal_name r rels)

-- scopeFor: the scope, and the types of the rows.
unfoldable pub scope_for :
    Access → Schema → TypeDefinition → ℕ → Result (Scope × List TypeDefinition)
unfolding add_types add_rels chain descendants
scope_for access schema root depth = do
  above ← chain schema.types root
  subtypes ← descendants schema.types root
  (type_ids, attrs) ← add_types access schema (above ++ subtypes) []
  rels ← schema.relations_of type_ids
  ok (
    record {
      attrs = attrs;
      link_attrs = none;
      rels = add_rels rels [];
      depth = depth;
      ambiguous = [];
    },
    root ∷ subtypes,
  )

abbrev pub max_traversal_depth : ℕ
max_traversal_depth = 5

-- The visible attributes whose names are not taken.
unfoldable pub add_missing : Access → List Attr → Attrs → Attrs
unfolding is_visible put Keyed.has
add_missing access [] attrs = attrs
add_missing access (a ∷ as') attrs =
    let skipped = add_missing access as' attrs in
    let added = add_missing access as' (put a.internal_name a attrs) in
    if is_visible access a && not (Keyed.has a.internal_name attrs) then added else skipped

-- The rest of the loop of linkAttrsFor, with `left` rounds left.
unfoldable pub add_links : Access → Schema → ℕ → RelDef → Attrs → Result Attrs
unfolding add_missing attributes_of
add_links access schema zero current attrs = ok attrs
add_links access schema (suc left) current attrs = do
  declared ← attributes_of schema current.attribute_set_id
  elim current.extends_id [
    | none ↦ ok (add_missing access declared attrs)
    | some base_id ↦ do
      base ← schema.relation base_id
      add_links access schema left base (add_missing access declared attrs)
  ]

-- linkAttrsFor.
unfoldable pub link_attrs_for : Access → Schema → RelDef → Result Attrs
unfolding add_links
link_attrs_for access schema def = add_links access schema 10 def []

-- scopeOf.
unfoldable pub scope_of : Access → Schema → ℕ → Ulid → Result Scope
unfolding scope_for
scope_of access schema depth id = do
  t ← schema.types.get id
  (s, row_types) ← scope_for access schema t depth
  ok s

-- One name of the other endpoint: new, the same declaration, or another one.
unfoldable pub merge_name : Bytes → Attr → Option Attr → Scope → Scope
unfolding put
merge_name name a none merged = record merged { attrs = put name a merged.attrs }
merge_name name a (some existing) merged =
    if existing.id == a.id
    then merged
    else record merged { ambiguous = put name true merged.ambiguous }

unfoldable pub merge_attrs : Attrs → Scope → Scope
unfolding merge_name get
merge_attrs [] merged = merged
merge_attrs ((name, a) ∷ attrs) merged =
    merge_attrs attrs (merge_name name a (get name merged.attrs) merged)

unfoldable pub merge_rels : Rels → Rels → Rels
unfolding put Keyed.has
merge_rels [] merged = merged
merge_rels ((name, r) ∷ rels) merged =
    merge_rels rels (if Keyed.has name merged then merged else put name r merged)

-- The union of the scopes of both endpoints.
unfoldable pub merge : Scope → Scope → Scope
unfolding merge_attrs merge_rels
merge other merged = record (merge_attrs other.attrs merged) {
  rels = merge_rels other.rels merged.rels;
}

-- traversalScope.
unfoldable pub traversal_scope : Access → Schema → Direction → RelDef → ℕ → Result Scope
unfolding scope_of merge
traversal_scope access schema dir_child def depth = scope_of access schema depth def.child_type_id
traversal_scope access schema dir_parent def depth = scope_of access schema depth def.parent_type_id
traversal_scope access schema dir_any def depth = do
  merged ← scope_of access schema depth def.parent_type_id
  if def.child_type_id == def.parent_type_id
      then ok merged
      else do other ← scope_of access schema depth def.child_type_id; ok (merge other merged)
