-- ===== src/Application/Query/Scope/Merged.antt =====
-- Application.Query.Scope.Merged: the names that linked() offers, of the schemas of both endpoints.
use flexitype.Prelude.{
  ℕ, ◌≡◌, refl, Bool, true, false, ◌||◌, not, Option, none, some, List, [], ◌∷◌, ◌++◌, arith, ◌==◌,
  if◌then◌else◌,
}
use flexitype.Bytes.{Bytes, eq_bytes, eq_bytes→eq}
use flexitype.Keyed
use flexitype.Keyed.{get, put, is_map, is_map-put, has-put, get-put}
use flexitype.Domain.Errors.Outcomes.{WhenOk, WhenOk-bind, WhenOk-chain, WhenOk-if}
use flexitype.Domain.Names.{Ulid}
use flexitype.Domain.TypeDef as TypeDef
use flexitype.Domain.TypeDef.{TypeDefinition}
use flexitype.Application.Access.{Access}
use flexitype.Application.Hierarchy.{chain, descendants}
use flexitype.Application.Query.Bound.{Attr}
use flexitype.Application.Query.Scope.{
  Schema, Scope, Attrs, merge_name, merge_attrs, attributes_of, add_attrs, add_types, scope_for,
  scope_of,
}

unfoldable pub or_else : Option Attr → Option Attr → Option Attr
or_else none o = o
or_else (some a) o = some a

-- Two declarations that are not the same.
unfoldable pub clash : Option Attr → Option Attr → Bool
clash (some p) (some q) = not (p.id == q.id)
clash _ _ = false

get-absent : (k : Bytes) (m : Attrs) → Keyed.has k m ≡ false → get k m ≡ none
unfolding Keyed.has
get-absent k m e = ground arith

get-merge_name :
    (j k : Bytes) (a : Attr) (taken : Option Attr) (merged : Scope)
    → get k merged.attrs ≡ taken
    → get j (merge_name k a taken merged).attrs
      ≡ or_else (get j merged.attrs) (if eq_bytes j k then some a else none)
unfolding merge_name or_else
get-merge_name j k a none merged e = ground (arith, get-put j k a merged.attrs, eq_bytes→eq j k)
get-merge_name j k a (some b) merged e = ground (arith, eq_bytes→eq j k)

has-merge_name :
    (j k : Bytes) (a : Attr) (taken : Option Attr) (merged : Scope)
    → get k merged.attrs ≡ taken
    → Keyed.has j (merge_name k a taken merged).ambiguous ≡ (
        Keyed.has j merged.ambiguous
        || clash (get j merged.attrs) (if eq_bytes j k then some a else none))
unfolding merge_name clash
has-merge_name j k a none merged e = ground (arith, eq_bytes→eq j k)
has-merge_name j k a (some b) merged e =
    ground (arith, has-put j k true merged.ambiguous, eq_bytes→eq j k)

pub get-merge_attrs :
    (name : Bytes) (other : Attrs) (merged : Scope)
    → is_map other ≡ true
    → get name (merge_attrs other merged).attrs ≡ or_else (get name merged.attrs) (get name other)
unfolding merge_attrs get is_map or_else
get-merge_attrs name [] merged h = ground arith
get-merge_attrs name ((k, a) ∷ other) merged h = ground (
  arith,
  get-merge_attrs name other (merge_name k a (get k merged.attrs) merged),
  get-merge_name name k a (get k merged.attrs) merged refl,
  eq_bytes→eq name k,
  get-absent k other,
)

pub has-merge_attrs :
    (name : Bytes) (other : Attrs) (merged : Scope)
    → is_map other ≡ true
    → Keyed.has name (merge_attrs other merged).ambiguous
      ≡ (Keyed.has name merged.ambiguous || clash (get name merged.attrs) (get name other))
unfolding merge_attrs get is_map clash or_else
has-merge_attrs name [] merged h = ground arith
has-merge_attrs name ((k, a) ∷ other) merged h = ground (
  arith,
  has-merge_attrs name other (merge_name k a (get k merged.attrs) merged),
  get-merge_name name k a (get k merged.attrs) merged refl,
  has-merge_name name k a (get k merged.attrs) merged refl,
  eq_bytes→eq name k,
  get-absent k other,
)

add_attrs-IsMap :
    (access : Access) (declared : List Attr) (attrs : Attrs)
    → is_map attrs ≡ true
    → is_map (add_attrs access declared attrs) ≡ true
unfolding add_attrs
add_attrs-IsMap access [] attrs h = h
add_attrs-IsMap access (a ∷ as') attrs h = ground (
  arith,
  is_map-put a.internal_name a attrs h,
  add_attrs-IsMap access as' attrs h,
  add_attrs-IsMap access as' (put a.internal_name a attrs),
)

add_types-IsMap :
    (access : Access) (schema : Schema) (ts : List TypeDefinition) (attrs : Attrs)
    → is_map attrs ≡ true
    → WhenOk (λ (type_ids, all). is_map all ≡ true) (add_types access schema ts attrs)
unfolding add_types
add_types-IsMap access schema [] attrs h = h
add_types-IsMap access schema (t ∷ ts) attrs h =
    WhenOk-if _ (TypeDef.is_archived t) _ _ (λ _. add_types-IsMap access schema ts attrs h)
      λ _. WhenOk-bind _ (attributes_of schema t.id) _ λ declared _.
        WhenOk-chain (λ (type_ids, all). is_map all ≡ true) _
          (add_types access schema ts (add_attrs access declared attrs)) _
          (add_types-IsMap access schema ts (add_attrs access declared attrs)
            (add_attrs-IsMap access declared attrs h))
          λ _ m. m

-- The names of an endpoint: each stands once, and none is ambiguous.
abbrev pub OfOneEnd : Scope → Type 0
OfOneEnd s = (is_map s.attrs ≡ true) × (s.ambiguous ≡ [])

scope_for-OfOneEnd :
    (access : Access) (schema : Schema) (root : TypeDefinition) (depth : ℕ)
    → WhenOk (λ (s, row_types). OfOneEnd s) (scope_for access schema root depth)
unfolding scope_for is_map
scope_for-OfOneEnd access schema root depth = WhenOk-bind _ (chain schema.types root) _ λ above _.
    WhenOk-bind _ (descendants schema.types root) _ λ subtypes _.
      WhenOk-chain (λ (type_ids, all). is_map all ≡ true) _
        (add_types access schema (above ++ subtypes) []) _
        (add_types-IsMap access schema (above ++ subtypes) [] refl)
        λ (type_ids, all) m. WhenOk-bind _ (schema.relations_of type_ids) _ λ rels _. (m, refl)

pub scope_of-OfOneEnd :
    (access : Access) (schema : Schema) (depth : ℕ) (id : Ulid)
    → WhenOk OfOneEnd (scope_of access schema depth id)
unfolding scope_of
scope_of-OfOneEnd access schema depth id = WhenOk-bind _ (schema.types.get id) _ λ t _.
    WhenOk-chain (λ (s, row_types). OfOneEnd s) _ (scope_for access schema t depth) _
      (scope_for-OfOneEnd access schema t depth) λ _ h. h
