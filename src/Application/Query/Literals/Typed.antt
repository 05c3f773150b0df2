-- ===== src/Application/Query/Literals/Typed.antt =====
-- Application.Query.Literals.Typed: the values of literals have the types that application/query/binder.go asks for.
use Prim.{tt}
use flexitype.Prelude.{◌≡◌, refl, true, ◌&&◌, arith, List, [], ◌∷◌, Bool, Option, none, some, not}
use flexitype.Bytes.{Bytes}
use flexitype.Domain.Errors.{Result, ok, err, as_validation}
use flexitype.Domain.Errors.Outcomes.{WhenOk, WhenOk-bind, WhenOk-chain, WhenOk-if, WhenOk-guard}
use flexitype.Domain.Names.{Ulid, is_empty}
use flexitype.Domain.Values.DataType.{DataType, eq_type, index}
use flexitype.Domain.Values.Value.{Value, has_type, data_type}
use flexitype.Domain.Values.Parse.{parse_value, new_quantity_value}
use flexitype.Domain.Values.Parse.Typed.{parse_value-IsSound}
use flexitype.Application.Unit.{Family, to_base}
use flexitype.Application.Query.Bound.{Attr}
use flexitype.Application.Query.Literals.{
  Texts, Families, int_literal, whole_number, parse_int, raw_of, coerce, in_family, with_families,
  coerce_quantity, coerce_literal, coerce_all, is_number,
}
use flexitype.Fql.Ast.{Literal}

-- The result, if there is one, has the type.
abbrev pub Typed : DataType → Result Value → Type 0
Typed dt r = WhenOk (λ v. has_type dt v ≡ true) r

pub int_literal-Typed : (lit : Literal) → Typed DataType.integer (int_literal lit)
unfolding int_literal whole_number has_type data_type eq_type index
int_literal-Typed lit = go (parse_int lit.text)
  where
    go : (n : _) → Typed DataType.integer (whole_number n)
    go none = tt
    go (some n) = refl

coerce-Typed : (texts : Texts) (dt : DataType) (lit : Literal) → Typed dt (coerce texts dt lit)
unfolding coerce
coerce-Typed texts dt lit =
    go (parse_value texts.decoders dt raw)
      λ v e. let sound = parse_value-IsSound texts.decoders dt raw v e in ground arith
  where
    raw : Bytes
    raw = unfold raw_of in raw_of texts lit.kind lit.text

    go :
        (r : Result Value)
        → ((v : Value) → r ≡ ok v → has_type dt v ≡ true)
        → Typed dt (as_validation r)
    go (ok v) h = h v refl
    go (err e) h = tt

new_quantity_value-Typed :
    (magnitude unit : Bytes) (base : _)
    → Typed DataType.quantity (new_quantity_value magnitude unit base)
unfolding new_quantity_value has_type data_type eq_type index
new_quantity_value-Typed magnitude unit base =
    WhenOk-guard _ (is_empty magnitude) _ _ λ _. WhenOk-guard _ (is_empty unit) _ _ λ _. refl

coerce_quantity-Typed :
    (texts : Texts) (families : Families) (attr : Attr) (lit : Literal)
    → Typed DataType.quantity (coerce_quantity texts families attr lit)
unfolding coerce_quantity with_families in_family
coerce_quantity-Typed texts families attr lit =
    WhenOk-guard _ (not (is_number lit.kind)) _ _
      λ _. WhenOk-guard _ (is_empty lit.unit) _ _ λ _. of_families families
  where
    of_id :
        (lookup : Ulid → Result Family) (id : Option Ulid)
        → Typed DataType.quantity (in_family texts lookup lit id)
    of_id lookup none = tt
    of_id lookup (some id) = WhenOk-bind _ (lookup id) _ λ family _.
        WhenOk-bind _ (as_validation (to_base texts.magnitudes family lit.text lit.unit)) _
          λ base _. new_quantity_value-Typed lit.text lit.unit base

    of_families :
        (families' : Families)
        → Typed DataType.quantity (with_families texts families' attr.fields.unit_family_id lit)
    of_families none = tt
    of_families (some lookup) =
        WhenOk-guard _ (is_empty attr.fields.unit_family_id) _ _ λ _. of_id lookup _

-- The same for a type that is equal.
of_equal :
    (dt other : DataType) (r : Result Value) → eq_type dt other ≡ true → Typed other r → Typed dt r
unfolding has_type eq_type
of_equal dt other (ok v) e h = ground arith
of_equal dt other (err x) e h = tt

pub coerce_literal-Typed :
    (texts : Texts) (families : Families) (attr : Attr) (lit : Literal)
    → Typed attr.data_type (coerce_literal texts families attr lit)
unfolding coerce_literal
coerce_literal-Typed texts families attr lit =
    WhenOk-if _ (eq_type attr.data_type DataType.quantity) _ _
      (λ e.
        of_equal attr.data_type DataType.quantity _ e
          (coerce_quantity-Typed texts families attr lit))
      λ _. WhenOk-guard _ (not (is_empty lit.unit)) _ _ λ _. coerce-Typed texts attr.data_type lit

-- Every value has the type.
unfoldable pub all_typed : DataType → List Value → Bool
unfolding has_type
all_typed dt [] = true
all_typed dt (v ∷ vs) = has_type dt v && all_typed dt vs

pub coerce_all-Typed :
    (texts : Texts) (families : Families) (attr : Attr) (lits : List Literal)
    → WhenOk (λ vs. all_typed attr.data_type vs ≡ true) (coerce_all texts families attr lits)
unfolding coerce_all all_typed
coerce_all-Typed texts families attr [] = refl
coerce_all-Typed texts families attr (lit ∷ lits) =
    WhenOk-chain (λ v. has_type attr.data_type v ≡ true) _ (coerce_literal texts families attr lit)
      _ (coerce_literal-Typed texts families attr lit)
      λ v h.
        WhenOk-chain (λ vs. all_typed attr.data_type vs ≡ true) _
          (coerce_all texts families attr lits) _ (coerce_all-Typed texts families attr lits)
          λ vs hs. ground arith
