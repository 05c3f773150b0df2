-- ===== src/Domain/Dependency/Effective/Order.antt =====
-- Domain.Dependency.Effective.Order: the order of the dependencies does not matter to what the schema demands and
-- accepts.
use Prim.{tt}
use mathlib.Core.List.{Permᴰ}
use flexitype.Prelude.{◌≡◌, refl, Bool, false, not, List, [], ◌∷◌, arith, if◌then◌else◌}
use flexitype.Domain.Errors.{Result, ok, err, ◌>>=◌}
use flexitype.Domain.Errors.Related.{Related, Related-trans, Related-bind}
use flexitype.Domain.Names.{Ulid}
use flexitype.Domain.Values.Value.{Platform, Value}
use flexitype.Domain.Values.Dynamic.{Moment}
use flexitype.Domain.Attribute.Definition.{Definition}
use flexitype.Domain.Dependency.Rule.{Dependency, Facts, matches_any}
use flexitype.Domain.Dependency.Effective.{
  Progress, EffectiveSchema, applies_to, step_matched, step, loop, start, finish, resolve,
}
use flexitype.Domain.Dependency.Effective.Allowed.{passes, passes-finish}
use flexitype.Domain.Dependency.Effective.Alike.{
  Alike, Alike-refl, Alike-trans, step_matched-Alike, step_matched_comm,
}

module _ (p : Platform) (now : Moment) (facts : Facts) (target : Ulid)
    (sources : Ulid → List Value) where
  -- One turn is a test, which does not look at the state, and then a step.
  matched : Dependency → Result Bool
  unfolding applies_to matches_any
  matched d =
      if not (applies_to target d)
      then ok false
      else matches_any p now facts d.conditions (sources d.source_id)

  step-matched :
      (d : Dependency) (s : Progress)
      → step p now facts target sources d s ≡ (matched d >>= λ b. ok (step_matched p d.effect b s))
  unfolding step matched step_matched
  step-matched d s = ground arith

  abbrev turn : Dependency → Progress → Result Bool → Result Progress
  turn d s m = m >>= λ b. ok (step_matched p d.effect b s)

  step-Alike :
      (d : Dependency) (m : Result Bool) (s t : Progress)
      → Alike p s t
      → Related (Alike p) (turn d s m) (turn d t m)
  step-Alike d (ok b) s t h = step_matched-Alike p d.effect b s t h
  step-Alike d (err e) s t h = tt

  abbrev go : List Dependency → Progress → Result Progress
  go ds s = loop p now facts target sources ds s

  loop-Alike :
      (ds : List Dependency) (s t : Progress) → Alike p s t → Related (Alike p) (go ds s) (go ds t)
  unfolding loop
  loop-Alike [] s t h = h
  loop-Alike (d ∷ ds) s t h =
      rw (step-matched d s, step-matched d t)
        (Related-bind (Alike p) (Alike p) (turn d s (matched d)) (turn d t (matched d)) (go ds)
          (go ds) (step-Alike d (matched d) s t h) (loop-Alike ds))

  two_turns :
      (d e : Dependency) (m n : Result Bool) (ds : List Dependency) (s t : Progress)
      → Alike p s t
      → Related
          (Alike p)
          (turn d s m >>= λ s'. turn e s' n >>= go ds)
          (turn e t n >>= λ t'. turn d t' m >>= go ds)
  two_turns d e (ok b) (ok c) ds s t h = loop-Alike ds _ _ (
      Alike-trans p _ _ _ (step_matched_comm p d.effect e.effect b c s)
        (step_matched-Alike p d.effect b _ _ (step_matched-Alike p e.effect c s t h)))
  two_turns d e (ok b) (err f) ds s t h = tt
  two_turns d e (err f) (ok c) ds s t h = tt
  two_turns d e (err f) (err g) ds s t h = tt

  second_turn :
      (d e : Dependency) (ds : List Dependency) (s : Progress) (m : Result Bool)
      → (turn d s m >>= go (e ∷ ds)) ≡ (turn d s m >>= λ s'. turn e s' (matched e) >>= go ds)
  unfolding loop
  second_turn d e ds s (ok b) = rw (step-matched e (step_matched p d.effect b s)) refl
  second_turn d e ds s (err f) = refl

  two_steps :
      (d e : Dependency) (ds : List Dependency) (s : Progress)
      → go (d ∷ e ∷ ds) s ≡ (turn d s (matched d) >>= λ s'. turn e s' (matched e) >>= go ds)
  unfolding loop
  two_steps d e ds s = rw (step-matched d s) (second_turn d e ds s (matched d))

  loop-Perm :
      (ds es : List Dependency) (s t : Progress)
      → Permᴰ ds es
      → Alike p s t
      → Related (Alike p) (go ds s) (go es t)
  unfolding loop
  loop-Perm ds es s t Permᴰ.nil h = h
  loop-Perm ds es s t (Permᴰ.cons {a} {b} {l₁} {l₂} q r) h =
      rw (q, step-matched b s, step-matched b t)
        (Related-bind (Alike p) (Alike p) (turn b s (matched b)) (turn b t (matched b)) (go l₁)
          (go l₂) (step-Alike b (matched b) s t h) λ s' t' h'. loop-Perm l₁ l₂ s' t' r h')
  loop-Perm ds es s t (Permᴰ.swap {a} {b} {a'} {b'} {l} q r) h =
      rw (q, r, two_steps b' a' l s, two_steps a' b' l t)
        (two_turns b' a' (matched b') (matched a') l s t h)
  loop-Perm ds es s t (Permᴰ.trans {l₁} {l₂} {l₃} q r) h =
      Related-trans (Alike p) (Alike-trans p) (go l₁ s) (go l₂ t) (go l₃ t)
        (loop-Perm l₁ l₂ s t q h) (loop-Perm l₂ l₃ t t r (Alike-refl p t))

-- Two schemas that demand the same, and accept the same values.
pub record SameSchema (p : Platform) (s t : EffectiveSchema) : Type 0 where
  pub required : s.required ≡ t.required
  pub required_by_dependency : s.required_by_dependency ≡ t.required_by_dependency
  pub required_enforcement : s.required_enforcement ≡ t.required_enforcement
  pub passes_same : (v : Value) → passes p s v ≡ passes p t v

finish-Alike :
    (p : Platform) (required : Bool) (s t : Progress)
    → Alike p s t
    → SameSchema p (finish required s) (finish required t)
unfolding finish
finish-Alike p required s t h = record {
  required = rw (h.overridden, h.required_by_any) refl;
  required_by_dependency = rw (h.overridden, h.required_by_any) refl;
  required_enforcement = rw (h.overridden, h.required_by_any, h.enforce_on_write) refl;
  passes_same = λ v.
      rw
        (
          passes-finish p required s v,
          passes-finish p required t v,
          h.overridden,
          h.required_by_any,
          h.permits_same v,
          h.accepts_same v,
        )
        refl;
}

-- The order in which the store returns the dependencies does not matter: one resolution is an error exactly if the
-- other is, and two schemas make the same demand, with the same enforcement, and accept the same values.
pub resolve-Perm :
    (p : Platform) (now : Moment) (facts : Facts) (target : Definition)
    (sources : Ulid → List Value) (ds es : List Dependency)
    → Permᴰ ds es
    → Related
        (SameSchema p)
        (resolve p now facts target sources ds)
        (resolve p now facts target sources es)
unfolding resolve
resolve-Perm p now facts target sources ds es q =
    let s = start target.fields.constraints in
    Related-bind (Alike p) (SameSchema p) _ _ _ _
      (loop-Perm p now facts target.id sources ds es s s q (Alike-refl p s))
      λ t u h. finish-Alike p target.fields.required t u h
