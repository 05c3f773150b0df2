-- ===== src/Domain/Dependency/Effective/Meaning.antt =====
-- Domain.Dependency.Effective.Meaning: the resolved schema against a description with no loop: what the effects that
-- match demand and let through.
use flexitype.Prelude.{
  ◌≡◌, refl, Bool, true, false, ◌&&◌, ◌||◌, List, [], ◌∷◌, arith, if◌then◌else◌, subst, ◌⊎◌, inl,
  inr,
}
use flexitype.Domain.Errors.{Error, Result, ok, err}
use flexitype.Domain.Names.{Ulid}
use flexitype.Domain.TypeDef.{is_some}
use flexitype.Domain.Values.Value.{Platform, Value, is_zero}
use flexitype.Domain.Values.Dynamic.{Moment}
use flexitype.Domain.Attribute.Constraint.{Constraint}
use flexitype.Domain.Attribute.Constraint.Laws.{accepts}
use flexitype.Domain.Attribute.Definition.{Definition}
use flexitype.Domain.Dependency.Rule.{
  Dependency, Effect, Facts, matches_any, demands_value, enforcement, is_on_write,
}
use flexitype.Domain.Dependency.Effective.{
  Progress, EffectiveSchema, apply_effect, applies_to, step_matched, step, loop, start, finish,
  resolve,
}
use flexitype.Domain.Dependency.Effective.Allowed.{
  permits, effect_permits, permits-apply_effect, accepts-apply_effect, overridden-apply_effect,
  required_by_any-apply_effect, enforce_on_write-apply_effect, passes, passes-finish,
}

abbrev is_ok_true : Result Bool → Bool
is_ok_true (ok b) = b
is_ok_true (err e) = false

-- What each effect asks.
abbrev pub any_override : List Effect → Bool
any_override [] = false
any_override (e ∷ es) = is_some e.required || any_override es

abbrev pub any_demand : List Effect → Bool
any_demand [] = false
any_demand (e ∷ es) = demands_value e || any_demand es

abbrev pub any_demand_on_write : List Effect → Bool
any_demand_on_write [] = false
any_demand_on_write (e ∷ es) =
    demands_value e && is_on_write (enforcement e) || any_demand_on_write es

abbrev pub all_permit : Platform → Value → List Effect → Bool
all_permit p v [] = true
all_permit p v (e ∷ es) = effect_permits p v e && accepts p v e.constraints && all_permit p v es

demand_overrides :
    (es : List Effect)
    → (any_demand es ≡ true → any_override es ≡ true)
      × (any_demand_on_write es ≡ true → any_demand es ≡ true)
demand_overrides [] = ground arith
demand_overrides (e ∷ es) = ground (arith, demand_overrides es)

module _ (p : Platform) (now : Moment) (facts : Facts) (target : Ulid)
    (sources : Ulid → List Value) where
  -- The dependency is alive, is about the target, and matches.
  pub matches_now : Dependency → Bool
  unfolding applies_to matches_any
  matches_now d =
      applies_to target d && is_ok_true (matches_any p now facts d.conditions (sources d.source_id))

  pub matched_effects : List Dependency → List Effect
  unfolding matches_now
  matched_effects [] = []
  matched_effects (d ∷ ds) =
      let rest = matched_effects ds in if matches_now d then d.effect ∷ rest else rest

  -- What the loop has gathered from effects.
  record Gathers (s : Progress) (es : List Effect) (r : Progress) : Type 0 where
    overridden : r.overridden ≡ s.overridden || any_override es
    required_by_any : r.required_by_any ≡ s.required_by_any || any_demand es
    enforce_on_write : r.enforce_on_write ≡ s.enforce_on_write || any_demand_on_write es
    permits_all :
        (v : Value)
        → permits p v r && accepts p v r.constraints
          ≡ permits p v s && accepts p v s.constraints && all_permit p v es

  Gathers-∷ :
      (s r : Progress) (e : Effect) (es : List Effect)
      → Gathers (apply_effect p e s) es r
      → Gathers s (e ∷ es) r
  Gathers-∷ s r e es h = record {
    overridden = ground (arith, overridden-apply_effect p e s);
    required_by_any = ground (arith, required_by_any-apply_effect p e s);
    enforce_on_write = ground (arith, enforce_on_write-apply_effect p e s);
    permits_all = λ v.
        ground (arith, h.permits_all v, permits-apply_effect p v e s, accepts-apply_effect p v e s);
  }

  step_cases :
      (d : Dependency) (s : Progress) (ds : List Dependency) (r : Progress)
      → loop p now facts target sources (d ∷ ds) s ≡ ok r
      → loop p now facts target sources ds (step_matched p d.effect (matches_now d) s) ≡ ok r
  unfolding loop step matches_now step_matched
  step_cases d s ds r h = ground arith

  Gathers-step :
      (s r : Progress) (e : Effect) (es : List Effect) (b : Bool)
      → Gathers (step_matched p e b s) es r
      → Gathers s (if b then e ∷ es else es) r
  unfolding step_matched
  Gathers-step s r e es true h = Gathers-∷ s r e es h
  Gathers-step s r e es false h = h

  Gathers-[] : (s : Progress) → Gathers s [] s
  Gathers-[] s = record {
    overridden = ground arith;
    required_by_any = ground arith;
    enforce_on_write = ground arith;
    permits_all = λ v. ground arith;
  }

  loop-Gathers :
      (ds : List Dependency) (s r : Progress)
      → loop p now facts target sources ds s ≡ ok r
      → Gathers s (matched_effects ds) r
  unfolding loop matched_effects
  loop-Gathers [] s r h = subst (Gathers s []) (cc) (Gathers-[] s)
  loop-Gathers (d ∷ ds) s r h =
      Gathers-step s r d.effect (matched_effects ds) (matches_now d)
        (loop-Gathers ds (step_matched p d.effect (matches_now d) s) r (step_cases d s ds r h))

-- What a schema demands and lets through, from the rules of the attribute and the effects on it.
pub record Means (p : Platform) (required : Bool) (own : List Constraint) (es : List Effect)
    (s : EffectiveSchema) : Type 0 where
  pub required_means : s.required ≡ (if any_override es then any_demand es else required)
  pub by_dependency_means : s.required_by_dependency ≡ any_demand es
  pub enforcement_means : is_on_write s.required_enforcement ≡ any_demand_on_write es
  pub passes_means :
      (v : Value) → is_zero v ≡ false → passes p s v ≡ accepts p v own && all_permit p v es

module _ (p : Platform) (required : Bool) (own : List Constraint) (es : List Effect)
    (r : Progress) where
  finish-Means :
      r.overridden ≡ any_override es
      → r.required_by_any ≡ any_demand es
      → r.enforce_on_write ≡ any_demand_on_write es
      → ((v : Value)
          → permits p v r && accepts p v r.constraints ≡ accepts p v own && all_permit p v es)
      → Means p required own es (finish required r)
  unfolding finish
  finish-Means o d w v = record {
    required_means = rw (o, d) refl;
    by_dependency_means = ground (arith, demand_overrides es);
    enforcement_means = ground (arith, demand_overrides es);
    passes_means = λ x nonzero. rw (passes-finish p required r x, nonzero) (v x);
  }

Result-cases {ℓ} :
    {A : Type ℓ} (r : Result A) → ((a : A) × (r ≡ ok a)) ⊎ ((e : Error) × (r ≡ err e))
Result-cases (ok a) = inl (a, refl)
Result-cases (err e) = inr (e, refl)

-- The schema that a resolution returns, in terms of the effects of the dependencies that match: a value that is not
-- the zero value passes Check exactly if the attribute and every effect let it through; the attribute is
-- required if some effect demands a value, or by its own flag where no effect overrides it; the demand is
-- enforced on write exactly if some effect that demands a value says so.
pub resolve-Means :
    (p : Platform) (now : Moment) (facts : Facts) (target : Definition)
    (sources : Ulid → List Value) (ds : List Dependency) (s : EffectiveSchema)
    → resolve p now facts target sources ds ≡ ok s
    → Means p target.fields.required target.fields.constraints
        (matched_effects p now facts target.id sources ds)
        s
unfolding resolve start
resolve-Means p now facts target sources ds s h =
    let own = target.fields.constraints in
    elim (Result-cases (loop p now facts target.id sources ds (start own))) [
      | inl (r, e) ↦
          let g = loop-Gathers p now facts target.id sources ds (start own) r e in
          subst (Means p target.fields.required own _) (cc) (
            finish-Means p target.fields.required own _ r g.overridden g.required_by_any
              g.enforce_on_write g.permits_all)
      | inr (f, e) ↦ cc
    ]
