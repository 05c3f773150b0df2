-- ===== src/Domain/Errors/Outcomes.antt =====
-- Domain.Errors.Outcomes: what holds of a result, where there is one, from the checks before it.
use Prim.{tt}
use flexitype.Prelude.{◌≡◌, refl, Bool, true, false, if◌then◌else◌, subst, arith}
use flexitype.Domain.Errors.{Error, Result, ok, err, ◌>>=◌, ◌>>◌}

abbrev pub WhenOk {ℓ κ} : {A : Type ℓ} → (A → Type κ) → Result A → Type κ
WhenOk P (ok a) = P a
WhenOk P (err e) = Unit

module _ {ℓ κ} {A : Type ℓ} (P : A → Type κ) where
  pub WhenOk-ok : (r : Result A) (a : A) → WhenOk P r → r ≡ ok a → P a
  WhenOk-ok (ok b) a h e = subst P (cc) h
  WhenOk-ok (err b) a h e = cc

  pub WhenOk-err : (e : Error) → WhenOk P (err e)
  WhenOk-err e = tt

  pub WhenOk-if :
      (b : Bool) (x y : Result A)
      → (b ≡ true → WhenOk P x)
      → (b ≡ false → WhenOk P y)
      → WhenOk P (if b then x else y)
  WhenOk-if true x y hx hy = hx refl
  WhenOk-if false x y hx hy = hy refl

  -- A check that refuses where the condition holds.
  pub WhenOk-guard :
      (b : Bool) (e : Error) (y : Result A)
      → (b ≡ false → WhenOk P y)
      → WhenOk P (if b then err e else y)
  WhenOk-guard b e y hy = WhenOk-if b (err e) y (λ _. tt) hy

  pub WhenOk-then :
      (m : Result (Unit {0})) (k : Result A) → (m ≡ ok tt → WhenOk P k) → WhenOk P (m >> k)
  WhenOk-then (ok u) k h = h refl
  WhenOk-then (err e) k h = tt

-- Two checks in a row.
pub then_ok : (m k : Result (Unit {0})) → (m >> k) ≡ ok tt → (m ≡ ok tt) × (k ≡ ok tt)
then_ok m k h = ground arith

pub WhenOk-bind {ℓ κ μ} :
    {A : Type ℓ} {B : Type μ} (P : B → Type κ) (m : Result A) (f : A → Result B)
    → ((a : A) → m ≡ ok a → WhenOk P (f a))
    → WhenOk P (m >>= f)
WhenOk-bind P (ok a) f h = h a refl
WhenOk-bind P (err e) f h = tt

-- What holds of a first result carries over to the rest.
pub WhenOk-chain {ℓ κ μ κ'} :
    {A : Type ℓ} {B : Type μ} (P : A → Type κ) (Q : B → Type κ') (m : Result A) (f : A → Result B)
    → WhenOk P m
    → ((a : A) → P a → WhenOk Q (f a))
    → WhenOk Q (m >>= f)
WhenOk-chain P Q (ok a) f h k = k a h
WhenOk-chain P Q (err e) f h k = tt

pub WhenOk-map {ℓ κ κ'} :
    {A : Type ℓ} (P : A → Type κ) (Q : A → Type κ') (r : Result A)
    → WhenOk P r
    → ((a : A) → P a → Q a)
    → WhenOk Q r
WhenOk-map P Q (ok a) h k = k a h
WhenOk-map P Q (err e) h k = tt

pub bind-cong {ℓ κ} :
    {A : Type ℓ} {B : Type κ} (m : Result A) (f g : A → Result B)
    → ((a : A) → f a ≡ g a)
    → (m >>= f) ≡ (m >>= g)
bind-cong (ok a) f g h = h a
bind-cong (err e) f g h = refl
