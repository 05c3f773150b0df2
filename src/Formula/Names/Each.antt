-- ===== src/Formula/Names/Each.antt =====
-- Formula.Names.Each: a property of every name that a list holds.
use flexitype.Prelude.{
  ◌≡◌, subst, refl, sym, ap, ◌∙◌, inl, inr, true, false, ◌||◌, List, [], ◌∷◌, ◌++◌, arith,
  Bool-cases,
}
use flexitype.Bytes.{Bytes, eq_bytes, eq_bytes→eq, eq_bytes_refl}
use flexitype.Formula.Ast.{seen}
use flexitype.Formula.Names.{distinct, without}

seen-append : (n : Bytes) (xs ys : List Bytes) → seen n (xs ++ ys) ≡ (seen n xs || seen n ys)
unfolding seen
seen-append n [] ys = refl
seen-append n (x ∷ xs) ys = ground (arith, seen-append n xs ys)

-- A property of every name in a list.
abbrev pub Each {ℓ} : (Bytes → Type ℓ) → List Bytes → Type ℓ
Each P names = (n : Bytes) → seen n names ≡ true → P n

module _ {ℓ} (P : Bytes → Type ℓ) where
  pub Each-left : (xs ys : List Bytes) → Each P (xs ++ ys) → Each P xs
  Each-left xs ys h n s = h n (seen-append n xs ys ∙ ap (λ b. b || seen n ys) s)

  pub Each-right : (xs ys : List Bytes) → Each P (xs ++ ys) → Each P ys
  Each-right xs ys h n s = h n (let e = seen-append n xs ys in ground arith)

  pub Each-both : (xs ys : List Bytes) → Each P xs → Each P ys → Each P (xs ++ ys)
  Each-both xs ys hx hy n s = elim (Bool-cases (seen n xs)) [
    | inl a ↦ hx n a
    | inr b ↦ hy n (let e = seen-append n xs ys in ground arith)
  ]

  pub Each-nil : Each P []
  unfolding seen
  Each-nil n s = cc

  pub Each-one : (x : Bytes) → P x → Each P (x ∷ [])
  unfolding seen
  Each-one x p n s = subst P (sym (eq_bytes→eq n x (ground arith))) p

  pub Each-the : (x : Bytes) → Each P (x ∷ []) → P x
  unfolding seen
  Each-the x h = h x (ground (arith, eq_bytes_refl x))

seen-without :
    (n x : Bytes) (xs : List Bytes) → eq_bytes n x ≡ false → seen n (without x xs) ≡ seen n xs
unfolding seen without
seen-without n x [] h = refl
seen-without n x (y ∷ ys) h =
    ground (arith, seen-without n x ys h, eq_bytes→eq n y, eq_bytes→eq y x)

seen-distinct : (n : Bytes) (xs : List Bytes) → seen n (distinct xs) ≡ seen n xs
unfolding seen distinct
seen-distinct n [] = refl
seen-distinct n (x ∷ xs) = elim (Bool-cases (eq_bytes n x)) [
  | inl a ↦ rw a
  | inr b ↦ rw (b, seen-without n x (distinct xs) b) (seen-distinct n xs)
]

-- Of the list that the parser kept, and of the names of the tree.
pub Each-distinct {ℓ} :
    (P : Bytes → Type ℓ) (names xs : List Bytes) → names ≡ distinct xs → Each P names → Each P xs
Each-distinct P names xs e h n s = h n (ap (seen n) e ∙ seen-distinct n xs ∙ s)

pub Each-collected {ℓ} :
    (P : Bytes → Type ℓ) (names xs : List Bytes) → names ≡ distinct xs → Each P xs → Each P names
Each-collected P names xs e h n s = h n (sym (seen-distinct n xs) ∙ sym (ap (seen n) e) ∙ s)
