-- ===== src/Domain/Dependency/Condition/Safe.antt =====
-- Domain.Dependency.Condition.Safe: a condition that is valid for a type does not fail on a value of that type.
use Prim.{tt}
use flexitype.Prelude.{◌≡◌, refl, Bool, true, false, Option, none, some, arith}
use flexitype.Bytes.{Bytes}
use flexitype.Domain.Errors.{Result, ok, err, ◌>>=◌}
use flexitype.Domain.Names.{is_empty}
use flexitype.Domain.TypeDef.{is_some}
use flexitype.Domain.Values.DataType.{DataType, is_ordered, is_temporal, eq_type}
use flexitype.Domain.Values.Value.{
  Platform, Value, data_type, is_zero, has_type, Order, compare, text_of,
}
use flexitype.Domain.Values.Value.Compare.{is_well_formed, compares_to, compare_succeeds}
use flexitype.Domain.Values.Dynamic.{
  Moment, DynamicValue, validate_dynamic, resolve_dynamic, yields, resolve_dynamic-yields,
}
use flexitype.Domain.Attribute.Constraint.{anchored, is_less, is_greater}
use flexitype.Domain.Dependency.Condition.{
  Condition, ConditionKind, equals, in_set, range, pattern, dynamic, unknown_condition, DynamicOp,
  known_op, validate_kind, validate_range, validate_dynamic_value, bound_fits, within_bound,
  and_then, matches_range, matches_pattern, compares, resolve_for, matches_dynamic,
  condition_matches, validate_condition, subject_type, validate_subject,
}

abbrev pub answers : Result Bool → Bool
answers (ok b) = true
answers (err e) = false

unfoldable pub bound_well_formed : Option Value → Bool
bound_well_formed none = true
bound_well_formed (some v) = is_well_formed v

within_answers :
    (beyond : Order → Bool) (exclusive : Bool) (dt : DataType) (v : Value) (bound : Option Value)
    → is_ordered dt ≡ true
    → has_type dt v ≡ true
    → is_well_formed v ≡ true
    → bound_fits dt bound ≡ true
    → bound_well_formed bound ≡ true
    → answers (within_bound beyond exclusive v bound) ≡ true
unfolding within_bound bound_fits bound_well_formed
within_answers beyond exclusive dt v none o t w f g = refl
within_answers beyond exclusive dt v (some b) o t w f g =
    ground (arith, compare_succeeds dt v b o t f w g)

both_answer :
    (m n : Result Bool)
    → answers m ≡ true
    → answers n ≡ true
    → answers (m >>= λ b. and_then b n) ≡ true
unfolding and_then
both_answer (ok true) n h k = k
both_answer (ok false) n h k = refl
both_answer (err e) n h k = h

range_fits :
    (dt : DataType) (c : Condition)
    → validate_range dt c ≡ ok tt
    → (is_ordered dt ≡ true) × (bound_fits dt c.min ≡ true) × (bound_fits dt c.max ≡ true)
unfolding validate_range
range_fits dt c h = ground arith

range_answers :
    (dt : DataType) (v : Value) (c : Condition)
    → validate_range dt c ≡ ok tt
    → has_type dt v ≡ true
    → is_well_formed v ≡ true
    → bound_well_formed c.min ≡ true
    → bound_well_formed c.max ≡ true
    → answers (matches_range v c) ≡ true
unfolding matches_range
range_answers dt v c h t w m n =
    let (o, f, g) = range_fits dt c h in
    both_answer (within_bound is_less c.min_exclusive v c.min)
      (within_bound is_greater c.max_exclusive v c.max)
      (within_answers is_less c.min_exclusive dt v c.min o t w f m)
      (within_answers is_greater c.max_exclusive dt v c.max o t w g n)

compares-answers :
    (op : DynamicOp) (o : Order) → known_op op ≡ true → answers (compares op o) ≡ true
unfolding compares
compares-answers op o h = ground arith

dynamic_fits :
    (dt : DataType) (op : DynamicOp) (d : DynamicValue)
    → validate_dynamic_value dt op (some d) ≡ ok tt
    → (is_temporal dt ≡ true) × (validate_dynamic dt d ≡ ok tt) × (known_op op ≡ true)
unfolding validate_dynamic_value
dynamic_fits dt op d h = ground arith

temporal_ordered : (dt : DataType) → is_temporal dt ≡ true → is_ordered dt ≡ true
unfolding is_temporal is_ordered
temporal_ordered dt h = ground arith

temporal_well_formed :
    (dt : DataType) (v : Value)
    → is_temporal dt ≡ true
    → has_type dt v ≡ true
    → is_well_formed v ≡ true
unfolding is_temporal has_type data_type eq_type
temporal_well_formed dt v h t = ground arith

has_type-data_type : (dt : DataType) (v : Value) → has_type dt v ≡ true → data_type v ≡ some dt
unfolding has_type data_type eq_type
has_type-data_type dt v h = ground arith

resolved_answers :
    (dt : DataType) (v : Value) (op : DynamicOp) (m : Result Value)
    → is_temporal dt ≡ true
    → has_type dt v ≡ true
    → known_op op ≡ true
    → yields dt m ≡ true
    → answers (m >>= λ at. compare v at >>= λ o. compares op o) ≡ true
resolved_answers dt v op (ok w) h t k y = compared (compare v w) (
    compare_succeeds dt v w (temporal_ordered dt h) t y (temporal_well_formed dt v h t)
      (temporal_well_formed dt w h y))
  where
    compared : (r : Result Order) → compares_to r ≡ true → answers (r >>= λ o. compares op o) ≡ true
    compared (ok o) s = compares-answers op o k
    compared (err e) s = s
resolved_answers dt v op (err e) h t k y = y

dynamic_answers :
    (dt : DataType) (now : Moment) (v : Value) (op : DynamicOp) (d : Option DynamicValue)
    → validate_dynamic_value dt op d ≡ ok tt
    → has_type dt v ≡ true
    → answers (matches_dynamic v now op d) ≡ true
unfolding matches_dynamic resolve_for
dynamic_answers dt now v op none h t = refl
dynamic_answers dt now v op (some d) h t =
    let (temporal, valid, known) = dynamic_fits dt op d h in
    rw (has_type-data_type dt v t) (
      resolved_answers dt v op (resolve_dynamic dt now d) temporal t known
        (resolve_dynamic-yields dt now d valid))

validated_kind :
    (p : Platform) (dt : DataType) (c : Condition)
    → is_empty c.context_key ≡ true
    → validate_condition p dt c ≡ ok tt
    → validate_kind p dt c ≡ ok tt
unfolding validate_condition subject_type validate_subject
validated_kind p dt c h v = ground arith

pattern_answers :
    (text : Bytes) (m : Option (Bytes → Bool))
    → is_some m ≡ true
    → answers (matches_pattern text m) ≡ true
unfolding matches_pattern
pattern_answers text (some f) h = refl
pattern_answers text none h = cc

valid_range :
    (p : Platform) (dt : DataType) (c : Condition)
    → c.kind ≡ range
    → validate_kind p dt c ≡ ok tt
    → validate_range dt c ≡ ok tt
unfolding validate_kind
valid_range p dt c e h = ground arith

valid_dynamic :
    (p : Platform) (dt : DataType) (c : Condition)
    → c.kind ≡ dynamic
    → validate_kind p dt c ≡ ok tt
    → validate_dynamic_value dt c.op c.dynamic_value ≡ ok tt
unfolding validate_kind
valid_dynamic p dt c e h = ground arith

no_unknown :
    (p : Platform) (dt : DataType) (c : Condition) (s : Bytes)
    → c.kind ≡ unknown_condition s
    → validate_kind p dt c ≡ ok tt
    → ⊥
unfolding validate_kind
no_unknown p dt c s e h = ground arith

typed_present : (dt : DataType) (v : Value) → has_type dt v ≡ true → is_zero v ≡ false
unfolding has_type is_zero
typed_present dt v h = ground arith

module _ (p : Platform) (now : Moment) (dt : DataType) (v : Value) (c : Condition)
    (valid : validate_kind p dt c ≡ ok tt) (typed : has_type dt v ≡ true)
    (formed : is_well_formed v ≡ true) (low : bound_well_formed c.min ≡ true)
    (high : bound_well_formed c.max ≡ true)
    (compiles : is_some (p.compile (anchored c.pattern_text c.pattern_substring)) ≡ true) where
  kind_answers :
      (k : ConditionKind)
      → c.kind ≡ k
      → is_zero v ≡ false
      → answers (condition_matches p now v c) ≡ true
  unfolding condition_matches validate_kind
  kind_answers equals e z = rw (z, e) refl
  kind_answers in_set e z = rw (z, e) refl
  kind_answers range e z =
      rw (z, e) (range_answers dt v c (valid_range p dt c e valid) typed formed low high)
  kind_answers pattern e z = rw (z, e) (pattern_answers (text_of v) _ compiles)
  kind_answers dynamic e z =
      rw (z, e) (dynamic_answers dt now v c.op c.dynamic_value (valid_dynamic p dt c e valid) typed)
  kind_answers (unknown_condition s) e z = absurd (no_unknown p dt c s e valid)

-- A condition on the source attribute that is valid for the attribute's type answers on every value of that type, at every
-- moment: no error. The texts of decimals have to be numbers, in the value and in the bounds, and the anchored
-- expression has to compile.
pub condition_answers :
    (p : Platform) (now : Moment) (dt : DataType) (v : Value) (c : Condition)
    → is_empty c.context_key ≡ true
    → validate_condition p dt c ≡ ok tt
    → has_type dt v ≡ true
    → is_well_formed v ≡ true
    → bound_well_formed c.min ≡ true
    → bound_well_formed c.max ≡ true
    → is_some (p.compile (anchored c.pattern_text c.pattern_substring)) ≡ true
    → answers (condition_matches p now v c) ≡ true
condition_answers p now dt v c source valid typed formed low high compiles =
    kind_answers p now dt v c (validated_kind p dt c source valid) typed formed low high compiles
      c.kind refl (typed_present dt v typed)
