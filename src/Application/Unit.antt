-- ===== src/Application/Unit.antt =====
-- Application.Unit: the unit families of application/unit/unit.go. The exact product of a text and a factor that
-- math/big computes is an argument.
use flexitype.Prelude.{ℕ, Bool, true, false, ◌||◌, not, Option, none, some, [], ◌∷◌, if◌then◌else◌}
use flexitype.Bytes.{Bytes}
use flexitype.Keyed.{Keyed, get}
use flexitype.Domain.Errors.{Result, ok, err, new_validation}
use flexitype.Domain.Names.{Ulid, TenantId, is_empty}
use flexitype.Domain.Values.Float.{float_lt, float_eq}

-- Whether a text is a rational of big.Rat, and the float64 next to its exact product with a factor's shortest text.
pub record Magnitudes : Type 0 where
  pub is_rational : Bytes → Bool
  pub times : Bytes → ℕ → ℕ

-- Family; a factor is the bits of a float64.
pub record Family : Type 0 where
  pub id : Ulid
  pub tenant_id : TenantId
  pub name : Bytes
  pub base_unit : Bytes
  pub units : Keyed ℕ

-- Family.Factor.
unfoldable pub factor : Family → Bytes → Option ℕ
unfolding get
factor f unit = get unit f.units

unfoldable pub scaled : Magnitudes → Bytes → Option ℕ → Result ℕ
scaled m magnitude none = err (new_validation "unit is not part of the attribute's unit family")
scaled m magnitude (some rate) = ok (m.times magnitude rate)

-- Family.ToBase.
unfoldable pub to_base : Magnitudes → Family → Bytes → Bytes → Result ℕ
unfolding scaled factor
to_base m f magnitude unit =
    if not (m.is_rational magnitude)
    then err (new_validation "quantity magnitude must be numeric")
    else scaled m magnitude (factor f unit)

-- The bits of 0 and 1.
abbrev zero_bits : ℕ
zero_bits = 0

abbrev one_bits : ℕ
one_bits = 0x3ff0000000000000

pub record CreateInput : Type 0 where
  pub name : Bytes
  pub base_unit : Bytes
  pub units : Keyed ℕ

unfoldable pub is_unity : Option ℕ → Bool
unfolding float_eq
is_unity none = false
is_unity (some rate) = float_eq rate one_bits

-- factor <= 0 for one of them; it is false of a NaN.
unfoldable pub some_not_positive : Keyed ℕ → Bool
unfolding float_lt float_eq
some_not_positive [] = false
some_not_positive ((unit, rate) ∷ units) =
    float_lt rate zero_bits || float_eq rate zero_bits || some_not_positive units

unfoldable pub is_nil : Keyed ℕ → Bool
is_nil [] = true
is_nil (x ∷ xs) = false

-- What Create makes, before it is stored; `id` is the fresh identifier.
unfoldable pub new_family : Ulid → TenantId → CreateInput → Result Family
unfolding is_unity some_not_positive is_nil get
new_family id tenant input =
    if is_empty input.name || is_empty input.base_unit
    then err (new_validation "unit family requires a name and base unit")
    else if is_nil input.units
    then err (new_validation "unit family requires at least one unit")
    else if not (is_unity (get input.base_unit input.units))
    then err (new_validation "the base unit must be present with factor 1")
    else if some_not_positive input.units
    then err (new_validation "unit factors must be positive")
    else ok (record {
      id = id;
      tenant_id = tenant;
      name = input.name;
      base_unit = input.base_unit;
      units = input.units;
    })
