-- ===== src/Domain/Dependency/Effective/Alike.antt =====
-- Domain.Dependency.Effective.Alike: states of the loop that end in the same demands and accept the same values, and the
-- effects on them.
use flexitype.Prelude.{◌≡◌, refl, ◌∙◌, Bool, true, false, arith}
use flexitype.Domain.Values.Value.{Platform, Value}
use flexitype.Domain.Attribute.Constraint.Laws.{accepts}
use flexitype.Domain.Dependency.Rule.{Effect}
use flexitype.Domain.Dependency.Effective.{Progress, apply_effect, step_matched}
use flexitype.Domain.Dependency.Effective.Allowed.{
  permits, permits-apply_effect, accepts-apply_effect, overridden-apply_effect,
  required_by_any-apply_effect, enforce_on_write-apply_effect,
}

module _ (p : Platform) where
  -- Two states of the loop that end in the same demands and accept the same values.
  pub record Alike (s t : Progress) : Type 0 where
    pub overridden : s.overridden ≡ t.overridden
    pub required_by_any : s.required_by_any ≡ t.required_by_any
    pub enforce_on_write : s.enforce_on_write ≡ t.enforce_on_write
    pub permits_same : (v : Value) → permits p v s ≡ permits p v t
    pub accepts_same : (v : Value) → accepts p v s.constraints ≡ accepts p v t.constraints

  pub Alike-refl : (s : Progress) → Alike s s
  Alike-refl s = record {
    overridden = refl;
    required_by_any = refl;
    enforce_on_write = refl;
    permits_same = λ v. refl;
    accepts_same = λ v. refl;
  }

  pub Alike-trans : (s t u : Progress) → Alike s t → Alike t u → Alike s u
  Alike-trans s t u h k = record {
    overridden = h.overridden ∙ k.overridden;
    required_by_any = h.required_by_any ∙ k.required_by_any;
    enforce_on_write = h.enforce_on_write ∙ k.enforce_on_write;
    permits_same = λ v. h.permits_same v ∙ k.permits_same v;
    accepts_same = λ v. h.accepts_same v ∙ k.accepts_same v;
  }

  apply_effect-Alike :
      (e : Effect) (s t : Progress) → Alike s t → Alike (apply_effect p e s) (apply_effect p e t)
  apply_effect-Alike e s t h = record {
    overridden =
        rw (overridden-apply_effect p e s, overridden-apply_effect p e t, h.overridden) refl;
    required_by_any =
        rw
          (
            required_by_any-apply_effect p e s,
            required_by_any-apply_effect p e t,
            h.required_by_any,
          )
          refl;
    enforce_on_write =
        rw
          (
            enforce_on_write-apply_effect p e s,
            enforce_on_write-apply_effect p e t,
            h.enforce_on_write,
          )
          refl;
    permits_same = λ v.
        ground
          (arith, permits-apply_effect p v e s, permits-apply_effect p v e t, h.permits_same v);
    accepts_same = λ v.
        ground
          (arith, accepts-apply_effect p v e s, accepts-apply_effect p v e t, h.accepts_same v);
  }

  -- Two effects commute.
  pub apply_effect_comm :
      (e f : Effect) (s : Progress)
      → Alike (apply_effect p f (apply_effect p e s)) (apply_effect p e (apply_effect p f s))
  apply_effect_comm e f s = record {
    overridden = ground (
      arith,
      overridden-apply_effect p f (apply_effect p e s),
      overridden-apply_effect p e (apply_effect p f s),
      overridden-apply_effect p e s,
      overridden-apply_effect p f s,
    );
    required_by_any = ground (
      arith,
      required_by_any-apply_effect p f (apply_effect p e s),
      required_by_any-apply_effect p e (apply_effect p f s),
      required_by_any-apply_effect p e s,
      required_by_any-apply_effect p f s,
    );
    enforce_on_write = ground (
      arith,
      enforce_on_write-apply_effect p f (apply_effect p e s),
      enforce_on_write-apply_effect p e (apply_effect p f s),
      enforce_on_write-apply_effect p e s,
      enforce_on_write-apply_effect p f s,
    );
    permits_same = λ v. ground (
      arith,
      permits-apply_effect p v f (apply_effect p e s),
      permits-apply_effect p v e (apply_effect p f s),
      permits-apply_effect p v e s,
      permits-apply_effect p v f s,
    );
    accepts_same = λ v. ground (
      arith,
      accepts-apply_effect p v f (apply_effect p e s),
      accepts-apply_effect p v e (apply_effect p f s),
      accepts-apply_effect p v e s,
      accepts-apply_effect p v f s,
    );
  }

  pub step_matched-Alike :
      (e : Effect) (b : Bool) (s t : Progress)
      → Alike s t
      → Alike (step_matched p e b s) (step_matched p e b t)
  unfolding step_matched
  step_matched-Alike e true s t h = apply_effect-Alike e s t h
  step_matched-Alike e false s t h = h

  pub step_matched_comm :
      (e f : Effect) (b c : Bool) (s : Progress)
      → Alike
          (step_matched p f c (step_matched p e b s))
          (step_matched p e b (step_matched p f c s))
  unfolding step_matched
  step_matched_comm e f true true s = apply_effect_comm e f s
  step_matched_comm e f true false s = Alike-refl _
  step_matched_comm e f false true s = Alike-refl _
  step_matched_comm e f false false s = Alike-refl _
