-- ===== src/Domain/Dependency/Effective/Allowed.antt =====
-- Domain.Dependency.Effective.Allowed: which values an effect lets through, and the loop after it.
use flexitype.Prelude.{
  ◌≡◌, refl, Bool, true, false, ◌&&◌, ◌||◌, not, List, [], ◌∷◌, arith, if◌then◌else◌,
}
use flexitype.Domain.Errors.{ok, err}
use flexitype.Domain.TypeDef.{is_some}
use flexitype.Domain.Values.Value.{Platform, Value, equal, is_zero}
use flexitype.Domain.Values.Value.Laws.{equal_sym, equal_trans}
use flexitype.Domain.Attribute.Constraint.{any_equal, none_left}
use flexitype.Domain.Attribute.Constraint.Laws.{accepts, accepts-append}
use flexitype.Domain.Dependency.Rule.{Effect, enforcement, is_on_write, demands_value}
use flexitype.Domain.Dependency.Effective.{
  Progress, intersect, narrow, override_required, apply_effect, EffectiveSchema, check_schema,
  as_violation, finish,
}

module _ (p : Platform) (v : Value) where
  -- Two values that are equal are equal to the same members.
  any_equal_cong :
      (w : Value) (next : List Value) → equal p v w ≡ true → any_equal p v next ≡ any_equal p w next
  unfolding any_equal
  any_equal_cong w [] h = refl
  any_equal_cong w (n ∷ next) h =
      ground
        (arith, any_equal_cong w next h, equal_sym p v w, equal_trans p v w n, equal_trans p w v n)

  -- A value is in an intersection if it is in both sets.
  pub any_equal-intersect :
      (current next : List Value)
      → any_equal p v (intersect p current next) ≡ any_equal p v current && any_equal p v next
  unfolding any_equal intersect
  any_equal-intersect [] next = refl
  any_equal-intersect (w ∷ current) next =
      ground (arith, any_equal-intersect current next, any_equal_cong w next)

  -- The narrowing lets the value through.
  abbrev pub permits : Progress → Bool
  permits s = not s.restricted || any_equal p v s.allowed_values

  -- What an effect asks of a value.
  abbrev pub effect_permits : Effect → Bool
  effect_permits e = none_left e.allowed_values || any_equal p v e.allowed_values

  permits-narrow :
      (allowed : List Value) (s : Progress)
      → permits (narrow p allowed s) ≡ permits s && (none_left allowed || any_equal p v allowed)
  unfolding narrow
  permits-narrow allowed s = ground (arith, any_equal-intersect s.allowed_values allowed)

  pub permits-apply_effect :
      (e : Effect) (s : Progress) → permits (apply_effect p e s) ≡ permits s && effect_permits e
  unfolding apply_effect override_required
  permits-apply_effect e s = ground (arith, permits-narrow e.allowed_values s)

  pub accepts-apply_effect :
      (e : Effect) (s : Progress)
      → accepts p v (apply_effect p e s).constraints
        ≡ accepts p v s.constraints && accepts p v e.constraints
  unfolding apply_effect override_required narrow
  accepts-apply_effect e s = ground (arith, accepts-append p v s.constraints e.constraints)

module _ (p : Platform) (e : Effect) (s : Progress) where
  pub overridden-apply_effect : (apply_effect p e s).overridden ≡ s.overridden || is_some e.required
  unfolding apply_effect override_required narrow
  overridden-apply_effect = ground arith

  pub required_by_any-apply_effect :
      (apply_effect p e s).required_by_any ≡ s.required_by_any || demands_value e
  unfolding apply_effect override_required narrow
  required_by_any-apply_effect = ground arith

  pub enforce_on_write-apply_effect :
      (apply_effect p e s).enforce_on_write
      ≡ s.enforce_on_write || demands_value e && is_on_write (enforcement e)
  unfolding apply_effect override_required narrow
  enforce_on_write-apply_effect = ground arith

-- EffectiveSchema.Check accepts a value.
abbrev pub passes : Platform → EffectiveSchema → Value → Bool
passes p s v = elim (check_schema p s v) [ ok u ↦ true | err e ↦ false ]

pub passes-finish :
    (p : Platform) (required : Bool) (s : Progress) (v : Value)
    → passes p (finish required s) v ≡ (
        if is_zero v
        then not (finish required s).required
        else permits p v s && accepts p v s.constraints)
unfolding finish check_schema as_violation
passes-finish p required s v = ground arith
