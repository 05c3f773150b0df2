-- ===== src/Domain/Dependency/Rule/Matching.antt =====
-- Domain.Dependency.Rule.Matching: when a dependency fires, and when asking fails.
use flexitype.Prelude.{
  ◌≡◌, refl, Bool, true, false, Option, none, some, List, [], ◌∷◌, ◌++◌, arith, All,
}
use flexitype.Domain.Errors.{Result, ok, err}
use flexitype.Domain.Names.{is_empty}
use flexitype.Domain.Values.Value.{Platform, Value, absent}
use flexitype.Domain.Values.Dynamic.{Moment}
use flexitype.Domain.Dependency.Condition.{Condition}
use flexitype.Domain.Dependency.Rule.{
  Facts, fact_matches, subject_matches, continue, conditions_match, stop, some_matches, matches_any,
}

module _ (p : Platform) (now : Moment) (facts : Facts) (cs : List Condition) where
  some_matches-append :
      (vs ws : List Value)
      → some_matches p now facts cs vs ≡ ok true
      → some_matches p now facts cs (vs ++ ws) ≡ ok true
  unfolding some_matches stop
  some_matches-append [] ws h = cc
  some_matches-append (v ∷ vs) ws h = ground (arith, some_matches-append vs ws)

  -- A dependency that fires on the values of a source attribute, of which there are some, keeps firing when more values
  -- come after them.
  pub matches_any-append :
      (v : Value) (vs ws : List Value)
      → matches_any p now facts cs (v ∷ vs) ≡ ok true
      → matches_any p now facts cs (v ∷ vs ++ ws) ≡ ok true
  unfolding matches_any
  matches_any-append v vs ws h = some_matches-append (v ∷ vs) ws h

-- It tests a fact of the caller.
abbrev pub TestsFact : Condition → Type 0
TestsFact c = is_empty c.context_key ≡ false

abbrev pub succeeds : Result Bool → Bool
succeeds (ok b) = true
succeeds (err e) = false

module _ (p : Platform) (now : Moment) (facts : Facts) where
  fact_succeeds : (c : Condition) (v : Option Value) → succeeds (fact_matches p now c v) ≡ true
  unfolding fact_matches
  fact_succeeds c none = refl
  fact_succeeds c (some v) = ground arith

  subject_succeeds :
      (c : Condition) (v : Value) → TestsFact c → succeeds (subject_matches p now facts v c) ≡ true
  unfolding subject_matches
  subject_succeeds c v h = rw h (fact_succeeds c (facts c.context_key))

  conditions_succeed :
      (cs : List Condition) (v : Value)
      → All TestsFact cs
      → succeeds (conditions_match p now facts v cs) ≡ true
  unfolding conditions_match continue
  conditions_succeed [] v h = refl
  conditions_succeed (c ∷ cs) v h =
      ground (arith, subject_succeeds c v h.0, conditions_succeed cs v h.1)

  some_succeed :
      (cs : List Condition) (vs : List Value)
      → All TestsFact cs
      → succeeds (some_matches p now facts cs vs) ≡ true
  unfolding some_matches stop
  some_succeed cs [] h = refl
  some_succeed cs (v ∷ vs) h = ground (arith, conditions_succeed cs v h, some_succeed cs vs h)

  -- Whatever facts the caller supplies, missing, of another type or not comparable, a dependency whose conditions all
  -- test facts never fails: it fires or it does not.
  pub facts_never_fail :
      (cs : List Condition) (vs : List Value)
      → All TestsFact cs
      → succeeds (matches_any p now facts cs vs) ≡ true
  unfolding matches_any
  facts_never_fail cs [] h = conditions_succeed cs absent h
  facts_never_fail cs (v ∷ vs) h = some_succeed cs (v ∷ vs) h
