-- ===== src/Domain/Attribute/Constraint.antt =====
-- Domain.Attribute.Constraint: domain/attribute/constraint.go. The compiled expression that a Pattern may hold is
-- always what `regexp.Compile` gives for it, so it is not a field here.
pub mod Laws
use flexitype.Prelude.{
  ℕ, Bool, true, false, ◌&&◌, ◌||◌, not, Option, none, some, List, [], ◌∷◌, ◌++◌, ◌==◌,
  if◌then◌else◌,
}
use flexitype.Prelude.Int.{ℤ, pos, lt_ℤ, eq_ℤ}
use flexitype.Bytes.{Bytes, codes, eq_bytes}
use flexitype.Domain.Errors.{Error, Result, ok, err, new_validation, ◌>>=◌, ◌>>◌}
use Prim.{tt}
use flexitype.Domain.Values.DataType
use flexitype.Domain.Values.DataType.{DataType, is_textual, is_ordered, eq_type}
use flexitype.Domain.Values.Value.{
  Platform, MediaMeta, Value, has_type, equal, Order, less, same, greater, compare, text_of,
  media_of, length_of,
}

pub data ConstraintKind : Type 0 where
  kind_min_length kind_max_length kind_min_value kind_max_value kind_pattern kind_one_of
        kind_media :
      ConstraintKind

unfoldable pub kind_index : ConstraintKind → ℕ
kind_index kind_min_length = 0
kind_index kind_max_length = 1
kind_index kind_min_value = 2
kind_index kind_max_value = 3
kind_index kind_pattern = 4
kind_index kind_one_of = 5
kind_index kind_media = 6

unfoldable pub eq_kind : ConstraintKind → ConstraintKind → Bool
unfolding kind_index
eq_kind a b = kind_index a == kind_index b

-- The structs that implement Constraint. `pattern expr substring`, `media allowed_mime max_size`.
pub data Constraint : Type 0 where
  min_length max_length : ℤ → Constraint
  min_value max_value : Value → Constraint
  pattern : Bytes → Bool → Constraint
  one_of : List Value → Constraint
  media : List Bytes → ℤ → Constraint

-- Kind.
unfoldable pub kind : Constraint → ConstraintKind
kind (min_length n) = kind_min_length
kind (max_length n) = kind_max_length
kind (min_value v) = kind_min_value
kind (max_value v) = kind_max_value
kind (pattern expr substring) = kind_pattern
kind (one_of vs) = kind_one_of
kind (media allowed_mime max_size) = kind_media

abbrev pub none_left {ℓ} : {A : Type ℓ} → List A → Bool
none_left [] = true
none_left (x ∷ xs) = false

unfoldable pub all_have_type : DataType → List Value → Bool
unfolding has_type
all_have_type dt [] = true
all_have_type dt (v ∷ vs) = has_type dt v && all_have_type dt vs

-- Pattern.pattern: `\A(?:expr)\z` unless substring matching is asked for.
unfoldable pub anchored : Bytes → Bool → Bytes
anchored expr substring =
    if substring then expr else 92 ∷ codes "A(?:" ++ expr ++ codes ")" ++ 92 ∷ codes "z"

abbrev pub is_less : Order → Bool
is_less less = true
is_less _ = false

abbrev pub is_greater : Order → Bool
is_greater greater = true
is_greater _ = false

unfoldable pub any_equal : Platform → Value → List Value → Bool
any_equal p v [] = false
any_equal p v (w ∷ ws) = equal p v w || any_equal p v ws

unfoldable pub has_mime : Bytes → List Bytes → Bool
unfolding eq_bytes
has_mime m [] = false
has_mime m (n ∷ ns) = eq_bytes n m || has_mime m ns

-- What Check makes of a comparison: an error of Compare is a validation error.
unfoldable pub check_order : (Order → Bool) → Error → Result Order → Result (Unit {0})
check_order beyond refusal (err e) = err (new_validation e.message)
check_order beyond refusal (ok o) = if beyond o then err refusal else ok tt

unfoldable pub check_pattern : Bytes → Option (Bytes → Bool) → Result (Unit {0})
check_pattern text none = err (new_validation "invalid pattern")
check_pattern text (some match_string) =
    if match_string text then ok tt else err (new_validation "value does not match pattern")

-- Validate of each constraint.
unfoldable pub validate_one : Platform → DataType → Constraint → Result (Unit {0})
unfolding anchored
validate_one p dt (min_length n) =
    if not (is_textual dt)
    then err (new_validation "min_length requires a textual data type")
    else if lt_ℤ n (pos 0)
    then err (new_validation "min_length must not be negative")
    else ok tt
validate_one p dt (max_length n) =
    if not (is_textual dt)
    then err (new_validation "max_length requires a textual data type")
    else if lt_ℤ (pos 0) n
    then ok tt
    else err (new_validation "max_length must be positive")
validate_one p dt (min_value v) =
    if not (is_ordered dt)
    then err (new_validation "min_value requires an ordered data type")
    else if has_type dt v
    then ok tt
    else err (new_validation "min_value operand type must match the attribute type")
validate_one p dt (max_value v) =
    if not (is_ordered dt)
    then err (new_validation "max_value requires an ordered data type")
    else if has_type dt v
    then ok tt
    else err (new_validation "max_value operand type must match the attribute type")
validate_one p dt (pattern expr substring) =
    if not (is_textual dt)
    then err (new_validation "pattern requires a textual data type")
    else elim (p.compile (anchored expr substring)) [
      | none ↦ err (new_validation "invalid pattern")
      | some match_string ↦ ok tt
    ]
validate_one p dt (one_of vs) =
    if none_left vs
    then err (new_validation "one_of requires at least one allowed value")
    else if all_have_type dt vs
    then ok tt
    else err (new_validation "one_of member type must match the attribute type")
validate_one p dt (media allowed_mime max_size) =
    if not (eq_type dt DataType.media)
    then err (new_validation "media constraint requires a media attribute")
    else if lt_ℤ max_size (pos 0)
    then err (new_validation "media max_size must be non-negative")
    else ok tt

-- Check of each constraint.
unfoldable pub check_one : Platform → Value → Constraint → Result (Unit {0})
unfolding anchored any_equal has_mime check_order check_pattern
check_one p v (min_length n) =
    if lt_ℤ (pos (length_of v)) n then err (new_validation "value must be at least") else ok tt
check_one p v (max_length n) =
    if lt_ℤ n (pos (length_of v)) then err (new_validation "value must be at most") else ok tt
check_one p v (min_value least) =
    check_order is_less (new_validation "value must be at least") (compare v least)
check_one p v (max_value most) =
    check_order is_greater (new_validation "value must be at most") (compare v most)
check_one p v (pattern expr substring) =
    check_pattern (text_of v) (p.compile (anchored expr substring))
check_one p v (one_of vs) =
    if any_equal p v vs then ok tt else err (new_validation "value is not in the allowed set")
check_one p v (media allowed_mime max_size) =
    let m = media_of v in
    if not (none_left allowed_mime) && not (has_mime m.mime allowed_mime)
    then err (new_validation "media type is not allowed")
    else if lt_ℤ (pos 0) max_size && lt_ℤ max_size m.size
    then err (new_validation "media exceeds the maximum size")
    else ok tt

unfoldable pub has_kind : ConstraintKind → List ConstraintKind → Bool
unfolding eq_kind
has_kind k [] = false
has_kind k (l ∷ ls) = eq_kind k l || has_kind k ls

-- Constraints.Validate, with the kinds that were seen.
unfoldable pub validate_seen :
    Platform → DataType → List ConstraintKind → List Constraint → Result (Unit {0})
unfolding has_kind validate_one
validate_seen p dt seen [] = ok tt
validate_seen p dt seen (c ∷ cs) =
    let rest = validate_seen p dt (kind c ∷ seen) cs in
    if has_kind (kind c) seen
    then err (new_validation "duplicate constraint")
    else validate_one p dt c >> rest

unfoldable pub validate : Platform → DataType → List Constraint → Result (Unit {0})
unfolding validate_seen
validate p dt cs = validate_seen p dt [] cs

-- Constraints.Check.
unfoldable pub check : Platform → Value → List Constraint → Result (Unit {0})
unfolding check_one
check p v [] = ok tt
check p v (c ∷ cs) = let rest = check p v cs in check_one p v c >> rest
