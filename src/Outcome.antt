-- ===== src/Outcome.antt =====
-- Outcome: what a call in Go comes to. `failed` is a returned error, `panicked` a run-time panic (an index
-- out of range), and `out_of_fuel` has no counterpart in the program.
use flexitype.Prelude.{◌≡◌, refl, ◌≢◌, subst, Bool, true, false, if◌then◌else◌}

pub data Outcome {ℓ} (E : Type 0) (A : Type ℓ) : Type ℓ where
  ok : A → Outcome E A
  failed : E → Outcome E A
  panicked out_of_fuel : Outcome E A

abbrev pub bind {ℓ κ} :
    {E : Type 0} {A : Type ℓ} {B : Type κ} → Outcome E A → (A → Outcome E B) → Outcome E B
bind (ok a) f = f a
bind (failed e) f = failed e
bind panicked f = panicked
bind out_of_fuel f = out_of_fuel

-- The run returned: a value with `P`, or an error with `R`. It neither panicked nor ran out of fuel.
pub data Ensures {ℓ κ} {E : Type 0} {A : Type ℓ} (R : E → Type 0) (P : A → Type κ)
    : Outcome E A → Type (ℓ ⊔ κ) where
  holds : {a : A} → P a → Ensures R P (ok a)
  rejected : {e : E} → R e → Ensures R P (failed e)

module _ {ℓ κ} {E : Type 0} {A : Type ℓ} {R : E → Type 0} {P : A → Type κ} where
  pub Ensures-ok : {r : Outcome E A} {a : A} → Ensures R P r → r ≡ ok a → P a
  Ensures-ok (holds h) e = subst P (cc) h
  Ensures-ok (rejected h) e = cc

  pub Ensures-failed : {r : Outcome E A} {e : E} → Ensures R P r → r ≡ failed e → R e
  Ensures-failed (holds h) e = cc
  Ensures-failed (rejected h) e = subst R (cc) h

  pub Ensures-out_of_fuel : {r : Outcome E A} → Ensures R P r → r ≢ out_of_fuel
  Ensures-out_of_fuel (holds h) = cc
  Ensures-out_of_fuel (rejected h) = cc

  pub Ensures-panicked : {r : Outcome E A} → Ensures R P r → r ≢ panicked
  Ensures-panicked (holds h) = cc
  Ensures-panicked (rejected h) = cc

  pub Ensures-if :
      (b : Bool) {x y : Outcome E A}
      → (b ≡ true → Ensures R P x)
      → (b ≡ false → Ensures R P y)
      → Ensures R P (if b then x else y)
  Ensures-if true hx hy = hx refl
  Ensures-if false hx hy = hy refl

  pub Ensures-bind {ℓ' κ'} :
      {B : Type ℓ'} {Q : B → Type κ'} {r : Outcome E A} {f : A → Outcome E B}
      → Ensures R P r
      → ((a : A) → P a → Ensures R Q (f a))
      → Ensures R Q (bind r f)
  Ensures-bind (holds {a} h) k = k a h
  Ensures-bind (rejected h) k = rejected h

  pub Ensures-weaken {κ'} :
      {Q : A → Type κ'} {r : Outcome E A} → Ensures R P r → ((a : A) → P a → Q a) → Ensures R Q r
  Ensures-weaken (holds {a} h) k = holds (k a h)
  Ensures-weaken (rejected h) k = rejected h

  pub Ensures-errors :
      {R' : E → Type 0} {r : Outcome E A} → Ensures R P r → ((e : E) → R e → R' e) → Ensures R' P r
  Ensures-errors (holds h) k = holds h
  Ensures-errors (rejected {e} h) k = rejected (k e h)
