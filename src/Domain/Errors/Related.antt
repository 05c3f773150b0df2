-- ===== src/Domain/Errors/Related.antt =====
-- Domain.Errors.Related: results that agree up to a relation on their values, and on whether they are errors.
use Prim.{tt}
use flexitype.Domain.Errors.{Result, ok, err, ◌>>=◌}

abbrev pub Related {ℓ} : {A : Type ℓ} → (A → A → Type 0) → Result A → Result A → Type 0
Related R (ok a) (ok b) = R a b
Related R (err e) (err f) = Unit
Related R (ok a) (err f) = ⊥
Related R (err e) (ok b) = ⊥

module _ {ℓ} {A : Type ℓ} (R : A → A → Type 0) where
  pub Related-trans :
      ((a b c : A) → R a b → R b c → R a c)
      → (r s t : Result A) → Related R r s
      → Related R s t
      → Related R r t
  Related-trans h (ok a) (ok b) (ok c) p q = h a b c p q
  Related-trans h (ok a) (ok b) (err e) p q = absurd q
  Related-trans h (ok a) (err e) t p q = absurd p
  Related-trans h (err e) (ok b) t p q = absurd p
  Related-trans h (err e) (err f) (ok c) p q = absurd q
  Related-trans h (err e) (err f) (err g) p q = tt

  pub Related-bind {μ} :
      {B : Type μ}
      → (S : B → B → Type 0) (r s : Result A) (f g : A → Result B) → Related R r s
      → ((a b : A) → R a b → Related S (f a) (g b))
      → Related S (r >>= f) (s >>= g)
  Related-bind S (ok a) (ok b) f g h k = k a b h
  Related-bind S (ok a) (err e) f g h k = absurd h
  Related-bind S (err e) (ok b) f g h k = absurd h
  Related-bind S (err e) (err e') f g h k = tt
