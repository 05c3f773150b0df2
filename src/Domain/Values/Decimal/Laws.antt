-- ===== src/Domain/Values/Decimal/Laws.antt =====
-- Domain.Values.Decimal.Laws: equality of decimals is that of the rationals they write.
use Prim.Native.Nat.{◌^◌}
use flexitype.Prelude.{ℕ, zero, suc, ◌*◌, ◌<◌, ◌≡◌, ap, ◌∙◌, ◌⊎◌, inl, inr, Bool, true, arith}
use flexitype.Prelude.Int.{eq_ℤ}
use flexitype.Domain.Values.Decimal.{Decimal, signed, numerator}
use native.Mathlib.Nat.{pow-suc}

pow_pos : (n : ℕ) → 0 < 10 ^ n
pow_pos zero = omega arith
pow_pos (suc n) = rw pow-suc (omega (arith, pow_pos n))

mul_cancel : (a b t : ℕ) → 0 < t → a * t ≡ b * t → a ≡ b
mul_cancel a b t h e = grind arith

cross : (a b c r s t : ℕ) → 0 < s → a * s ≡ b * r → b * t ≡ c * s → a * t ≡ c * r
cross a b c r s t h e f =
    mul_cancel (a * t) (c * r) s h (omega (arith, ap (λ (x : ℕ). x * t) e, ap (λ (x : ℕ). x * r) f))

-- Equal numerators have one sign, or are both zero.
signs :
    (m n : Bool) (a b : ℕ) → eq_ℤ (signed m a) (signed n b) ≡ true → (a ≡ b) × ((m ≡ n) ⊎ (a ≡ 0))
unfolding signed
signs m n a b h = ground arith

signed_eq :
    (m n : Bool) (a b : ℕ) → a ≡ b → (m ≡ n) ⊎ (a ≡ 0) → eq_ℤ (signed m a) (signed n b) ≡ true
unfolding signed
signed_eq m n a b e s = ground arith

zero_of : (a t : ℕ) → 0 < t → a * t ≡ 0 → a ≡ 0
zero_of a t h e = mul_cancel a 0 t h (omega arith)

zero_mul : (a t : ℕ) → a ≡ 0 → a * t ≡ 0
zero_mul a t e = rw e (omega arith)

-- The sign passes from `d` to `f` by way of `e`, whose magnitude `b` is that of `d` and of `f`.
module _ (m n p : Bool) (a b c r s t : ℕ) (pos_r : 0 < r) (pos_s : 0 < s) (pos_t : 0 < t) where
  one_sign :
      a * s ≡ b * r
      → b * t ≡ c * s
      → (m ≡ n) ⊎ (a * s ≡ 0)
      → (n ≡ p) ⊎ (b * t ≡ 0)
      → (m ≡ p) ⊎ (a * t ≡ 0)
  one_sign e f (inr z) k = inr (zero_mul a t (zero_of a s pos_s z))
  one_sign e f (inl h) (inl k) = inl (h ∙ k)
  one_sign e f (inl h) (inr z) =
      inr (zero_mul a t (zero_of a s pos_s (e ∙ zero_mul b r (zero_of b t pos_t z))))

pub numerator_trans :
    (d e f : Decimal)
    → eq_ℤ (numerator d e) (numerator e d) ≡ true
    → eq_ℤ (numerator e f) (numerator f e) ≡ true
    → eq_ℤ (numerator d f) (numerator f d) ≡ true
unfolding numerator
numerator_trans d e f h k =
    let (a, u) = signs d.negative e.negative _ _ h in
    let (b, v) = signs e.negative f.negative _ _ k in
    let r = 10 ^ d.scale in
    let s = 10 ^ e.scale in
    let t = 10 ^ f.scale in
    signed_eq d.negative f.negative (d.magnitude * t) (f.magnitude * r)
      (cross d.magnitude e.magnitude f.magnitude r s t (pow_pos e.scale) a b)
      (one_sign d.negative e.negative f.negative d.magnitude e.magnitude f.magnitude r s t
        (pow_pos d.scale) (pow_pos e.scale) (pow_pos f.scale) a b u v)
