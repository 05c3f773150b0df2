-- ===== src/Tests/Binding.antt =====
-- Tests.Binding: the hierarchy of two types, a query over it and the name that linked() offers, with the theorems about
-- them.
use flexitype.Prelude.{
  List, ◌≡◌, ◌↔◌, refl, true, false, ◌&&◌, ◌||◌, ◌==◌, ◌-◌, if◌then◌else◌, none, some, [], ◌∷◌,
}
use flexitype.Prelude.Int.{pos}
use flexitype.Bytes.{Bytes, codes, eq_bytes, is_digit}
use flexitype.Keyed.{get}
use flexitype.Outcome.{Ensures}
use flexitype.Domain.Errors.{Result, ok, err, new_not_found, new_validation, ◌>>=◌}
use flexitype.Domain.Names.{Ulid}
use flexitype.Domain.TypeDef.{TypeDefinition}
use flexitype.Domain.Values.DataType.{DataType, is_ordered}
use flexitype.Domain.Values.Value.{integer_value, decimal_value, has_type}
use flexitype.Domain.Values.Decimal.{parse_decimal}
use flexitype.Domain.Values.Parse.{Decoders, parse_value, decoded_number}
use flexitype.Domain.Values.Parse.Typed.{is_sound, parse_value-IsSound}
use flexitype.Domain.Relationship.Definition as Relationship
use flexitype.Application.Access.{Access, system_access}
use flexitype.Application.Hierarchy.{
  Types, ancestors, chain, descendants, is_seen, ids, max_hierarchy_depth,
}
use flexitype.Application.Hierarchy.Depth.{is_ok, chain-too_deep}
use flexitype.Application.Hierarchy.Exact.{Within, descendants_iff, is_distinct}
use flexitype.Application.Query.Bound.{Attr, RelDef, bound_compare}
use flexitype.Application.Query.Scope.{Schema, Scope, is_visible, scope_of, traversal_scope}
use flexitype.Application.Query.Literals.{parse_int}
use flexitype.Application.Query.Fields.{resolve_entity, bind_compare}
use flexitype.Application.Query.Fields.Linked.{of_ends, linked-resolves}
use flexitype.Application.Query.Binder.{Interactor, prepare, prepare_tree}
use flexitype.Application.Query.Binder.Prepared.{Prepared, prepare-Prepared}
use flexitype.Application.Query.Binder.Hidden.{blinded, prepare-blinded}
use flexitype.Fql.Ast.{dir_any, func_none, cmp_gte, Node, comparison, scope_entity, lit_number}
use flexitype.Tests.TypeDefs.{product}
use flexitype.Tests.Attributes.{rating}
use flexitype.Tests.Relationships.{compatible}

-- A subtype of product, and what holds the attributes of another type with a rating of its own.
abbrev shoe : TypeDefinition
shoe = record product { id = 5; internal_name = codes "shoe"; extends_id = some 1 }

abbrev shop : TypeDefinition
shop = record product { id = 7; internal_name = codes "shop" }

abbrev shop_rating : Attr
shop_rating = record rating { id = 21 }

abbrev type_of : Ulid → Result TypeDefinition
type_of id =
    if id == 1
    then ok product
    else if id == 5
    then ok shoe
    else if id == 7
    then ok shop
    else err (new_not_found "type_definition")

abbrev small : Types
small = record { get = type_of; list_children = λ id. ok (if id == 1 then shoe ∷ [] else []) }

-- Numbers stand for themselves; nothing else decodes.
abbrev numbers : Decoders
numbers = record {
  bool = λ s. none;
  string = λ s. none;
  number = λ s. some s;
  any = λ s. some (decoded_number s);
  compact = λ s. none;
  media = λ s. none;
  quantity = λ s. none;
  int64 = parse_int;
  float64 = λ s. none;
  date = λ s. none;
  time = λ s. none;
  date_time = λ s. none;
  url = λ s. none;
  address = λ s. none;
}

abbrev sells : RelDef
sells = record compatible { kind = Relationship.directed; child_type_id = 7 }

abbrev catalogue : Schema
catalogue = record {
  types = small;
  list_by_type_definition = λ id limit.
      ok (if id == 1 then (rating ∷ [], 1) else if id == 7 then (shop_rating ∷ [], 1) else ([], 0));
  relations_of = λ type_ids. ok [];
  relation = λ id. err (new_not_found "relationship_definition");
}

abbrev console : Access → Interactor
console access = record {
  search_index = true;
  access = access;
  schema = catalogue;
  texts = record {
    decoders = numbers;
    marshal_string = λ s. s;
    parse_ulid = λ s. none;
    magnitudes = record { is_rational = λ s. false; times = λ s rate. 0 };
  };
  families = none;
  type_named = λ name. ok product;
  all_types = ok (product ∷ shoe ∷ shop ∷ []);
}

-- It may read everything but the rating.
abbrev restricted : Access
restricted = record {
  admin = false;
  attr = (codes "rating", codes "none") ∷ [];
  default_level = [];
}

abbrev well_rated : Bytes
well_rated = codes "rating >= 3 and not type = shoe"

parse_value-twelve :
    parse_value numbers DataType.decimal (codes "12.5") ≡ ok (decimal_value (codes "12.5"))
unfolding parse_value parse_decimal is_digit
parse_value-twelve = refl

parse_value-IsSound_example :
    (has_type DataType.decimal (decimal_value (codes "12.5"))
      && is_sound numbers (decimal_value (codes "12.5")))
    ≡ true
parse_value-IsSound_example =
    parse_value-IsSound numbers DataType.decimal (codes "12.5") (decimal_value (codes "12.5"))
      parse_value-twelve

descendants-product : descendants small product ≡ ok (shoe ∷ [])
unfolding descendants
descendants-product = refl

descendants_iff_example :
    (((product.id == 5 || is_seen 5 (ids (shoe ∷ []))) ≡ true)
      ↔ Within small max_hierarchy_depth product.id 5)
    × (is_distinct (product.id ∷ ids (shoe ∷ [])) ≡ true)
descendants_iff_example = descendants_iff small product 5 descendants-product

abbrev well_rated_tree : Node
well_rated_tree =
    comparison func_none (record { scope = scope_entity; name = codes "rating"; pos = 0 }) cmp_gte
      (record { kind = lit_number; text = codes "3"; unit = []; pos = 10 }) 0

-- The tree is bound for a principal that reads everything, and refused for the restricted one.
prepare_tree-well_rated :
    prepare_tree (console system_access) product well_rated_tree
    ≡ ok (1 ∷ 5 ∷ [], bound_compare rating false func_none cmp_gte (integer_value (pos 3)))
unfolding prepare_tree system_access is_digit is_ordered eq_bytes bind_compare
prepare_tree-well_rated = refl

prepare_tree-hidden :
    prepare_tree (console restricted) product well_rated_tree
    ≡ err (new_validation "unknown attribute")
unfolding prepare_tree eq_bytes bind_compare
prepare_tree-hidden = refl

prepare-Prepared_example :
    Ensures
      (λ e. Unit {0})
      (Prepared restricted (codes "rating"))
      (prepare (console restricted) (codes "product") well_rated)
prepare-Prepared_example =
    prepare-Prepared (console restricted) (codes "product") well_rated (codes "rating")

-- The same attribute, of another name and archived.
abbrev renamed : Attr → Attr
renamed a = record a { internal_name = codes "secret"; archived_at = some (pos 0) }

prepare-blinded_example :
    prepare (blinded renamed (console restricted)) (codes "product") well_rated
    ≡ prepare (console restricted) (codes "product") well_rated
prepare-blinded_example =
    prepare-blinded (console restricted) renamed (λ a. unfold is_visible in refl) (codes "product")
      well_rated

abbrev product_scope : Scope
product_scope = record {
  attrs = (codes "rating", rating) ∷ [];
  link_attrs = none;
  rels = [];
  depth = 1;
  ambiguous = [];
}

abbrev shop_scope : Scope
shop_scope = record product_scope { attrs = (codes "rating", shop_rating) ∷ [] }

scope_of-product : scope_of system_access catalogue 1 1 ≡ ok product_scope
unfolding scope_of system_access
scope_of-product = refl

scope_of-shop : scope_of system_access catalogue 1 7 ≡ ok shop_scope
unfolding scope_of system_access
scope_of-shop = refl

linked-resolves_example :
    (traversal_scope system_access catalogue dir_any sells 1 >>= resolve_entity (codes "rating"))
    ≡ of_ends (get (codes "rating") product_scope.attrs) (get (codes "rating") shop_scope.attrs)
linked-resolves_example =
    linked-resolves system_access catalogue sells 1 (codes "rating") refl scope_of-product
      scope_of-shop

-- A chain of types, each extending the one numbered before it.
abbrev level : Ulid → TypeDefinition
level n = record product { id = n; extends_id = if n == 1 then none else some (n - 1) }

abbrev tall : Types
tall = record { get = λ id. ok (level id); list_children = λ id. ok [] }

abbrev nine_above : List TypeDefinition
nine_above =
    level 9 ∷ level 8 ∷ level 7 ∷ level 6 ∷ level 5 ∷ level 4 ∷ level 3 ∷ level 2 ∷ level 1 ∷ []

ancestors-tenth : ancestors tall (level 10) ≡ ok nine_above
unfolding ancestors
ancestors-tenth = refl

chain-too_deep_example : is_ok (chain tall (level 11)) ≡ false
chain-too_deep_example = chain-too_deep tall (level 10) (level 11) ancestors-tenth refl refl refl
