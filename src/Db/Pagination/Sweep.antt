-- ===== src/Db/Pagination/Sweep.antt =====
-- Db.Pagination.Sweep: a caller that follows the cursors of pkg/db/pagination.go to the end.
use flexitype.Prelude.{
  ℕ, zero, suc, ◌<◌, ◌≡◌, ◌≢◌, refl, sym, ap, ◌∙◌, true, false, Option, none, some, List, [], ◌∷◌,
  ◌++◌, arith, ltb, length, Bool-cases, inl, inr,
}
use mathlib.Core.List.{append_assoc}
use flexitype.Bytes.{Bytes}
use flexitype.Db.Pagination.{Page, fetch_limit, take, last, cursor_after, keyset_page}

abbrev page_at : ℕ → Bytes → Page
page_at limit cursor = record { limit = limit; cursor = cursor; want_total = false; stable = true }

module _ {ℓ} {T : Type ℓ} where
  unfoldable drop : ℕ → List T → List T
  drop zero xs = xs
  drop (suc n) [] = []
  drop (suc n) (x ∷ xs) = drop n xs

  take-drop : (n : ℕ) (xs : List T) → take n xs ++ drop n xs ≡ xs
  unfolding take drop
  take-drop zero xs = refl
  take-drop (suc n) [] = refl
  take-drop (suc n) (x ∷ xs) = ap (λ r. x ∷ r) (take-drop n xs)

  take-take : (n : ℕ) (xs : List T) → take n (take (suc n) xs) ≡ take n xs
  unfolding take
  take-take zero xs = refl
  take-take (suc n) [] = refl
  take-take (suc n) (x ∷ xs) = ap (λ r. x ∷ r) (take-take n xs)

  -- A page that is not over-full is all that there is.
  take-short :
      (n : ℕ) (xs : List T) → ltb n (length (take (suc n) xs)) ≡ false → take (suc n) xs ≡ xs
  unfolding take
  take-short zero [] h = refl
  take-short zero (x ∷ xs) h = absurd (ground arith)
  take-short (suc n) [] h = refl
  take-short (suc n) (x ∷ xs) h = ap (λ r. x ∷ r) (take-short n xs (ground arith))

  -- An over-full page has more rows after it than it shows.
  drop-shorter :
      (n : ℕ) (xs : List T)
      → ltb (suc n) (length (take (suc (suc n)) xs)) ≡ true
      → length (drop (suc n) xs) < length xs
  unfolding take drop
  drop-shorter n [] h = absurd (ground arith)
  drop-shorter zero (x ∷ xs) h = omega arith
  drop-shorter (suc n) (x ∷ xs) h = let r = drop-shorter n xs (ground arith) in omega arith

  last-append : (xs : List T) (x : T) → last xs ≡ some x → (ini : List T) × (xs ≡ ini ++ (x ∷ []))
  unfolding last
  last-append [] x h = absurd (cc)
  last-append (y ∷ []) x h = ([], cc)
  last-append (y ∷ z ∷ zs) x h =
      let (ini, e) = last-append (z ∷ zs) x h in (y ∷ ini, ap (λ r. y ∷ r) e)

  last-some : (n : ℕ) (x : T) (xs : List T) → last (take (suc n) (x ∷ xs)) ≢ none
  unfolding take last
  last-some zero x xs = cc
  last-some (suc n) x [] = cc
  last-some (suc n) x (y ∷ ys) = last-some n y ys

  page-has_last :
      (l : ℕ) (xs : List T)
      → ltb (suc l) (length (take (suc (suc l)) xs)) ≡ true
      → last (take (suc l) xs) ≢ none
  unfolding take
  page-has_last l [] b = absurd (ground arith)
  page-has_last l (x ∷ ys) b = last-some l x ys

  -- The rows of a page, and those behind the next cursor.
  follow : List T → Option Bytes → (Bytes → List T) → List T
  follow items none rest = items
  follow items (some cursor) rest = items ++ rest cursor

  -- The pages of a caller that follows the cursors, where the rows after a cursor are `after`.
  unfoldable pub sweep : (Bytes → List T) → (T → Bytes) → ℕ → ℕ → Bytes → List T
  unfolding follow keyset_page fetch_limit
  sweep after cursor_of limit zero cursor = []
  sweep after cursor_of limit (suc fuel) cursor =
      let page = page_at limit cursor in
      let (items, info) =
        keyset_page page (take (fetch_limit page) (after cursor)) none cursor_of in
      follow items info.next_cursor (sweep after cursor_of limit fuel)

  module _ (rows : List T) (after : Bytes → List T) (cursor_of : T → Bytes)
      (first : after [] ≡ rows)
      (next : (xs : List T) (x : T) (ys : List T)
        → rows ≡ xs ++ (x ∷ ys)
        → after (cursor_of x) ≡ ys) where
    -- From a cursor on, the rows behind it, with fuel for them.
    abbrev From : ℕ → ℕ → Type ℓ
    From l fuel =
        (cursor : Bytes) (xs rest : List T)
        → after cursor ≡ rest
        → rows ≡ xs ++ rest
        → length rest < fuel
        → sweep after cursor_of (suc l) fuel cursor ≡ rest

    follow-last :
        (l fuel : ℕ) (xs rest : List T) (o : Option T)
        → From l fuel
        → rows ≡ xs ++ rest
        → length rest < suc fuel
        → ltb (suc l) (length (take (suc (suc l)) rest)) ≡ true
        → last (take (suc l) rest) ≡ o
        → follow (take (suc l) rest) (cursor_after cursor_of o) (sweep after cursor_of (suc l) fuel)
          ≡ rest
    unfolding follow cursor_after
    follow-last l fuel xs rest none go r h b n = absurd (page-has_last l rest b n)
    follow-last l fuel xs rest (some x) go r h b n =
        let (ini, cut) = last-append (take (suc l) rest) x n in
        let whole = take-drop (suc l) rest in
        let position : rows ≡ (xs ++ ini) ++ (x ∷ drop (suc l) rest) =
          r
          ∙ ap (λ z. xs ++ z) (sym whole ∙ ap (λ z. z ++ drop (suc l) rest) cut)
          ∙ simp append_assoc in
        ap (λ z. take (suc l) rest ++ z)
          (go (cursor_of x) (xs ++ take (suc l) rest) (drop (suc l) rest)
            (next (xs ++ ini) x (drop (suc l) rest) position)
            (r ∙ ap (λ z. xs ++ z) (sym whole) ∙ simp append_assoc)
            (let s = drop-shorter l rest b in omega arith))
        ∙ whole

    sweep-From : (l fuel : ℕ) → From l fuel
    unfolding sweep follow keyset_page fetch_limit
    sweep-From l zero cursor xs rest e r h = absurd (omega arith)
    sweep-From l (suc fuel) cursor xs rest e r h =
        elim (Bool-cases (ltb (suc l) (length (take (suc (suc l)) rest)))) [
          | inr b ↦ rw (e, b) (take-short (suc l) rest b)
          | inl b ↦
              rw (e, b, take-take (suc l) rest)
                (follow-last l fuel xs rest (last (take (suc l) rest)) (sweep-From l fuel) r h b
                  refl)
        ]

    -- Following the cursors from the first page to the last returns every row exactly once, in order, whatever the size
    -- of the pages, in at most one page more than there are rows; where the query behind a row's cursor answers with the
    -- rows behind that row.
    pub sweep-all : (l : ℕ) → sweep after cursor_of (suc l) (suc (length rows)) [] ≡ rows
    sweep-all l = sweep-From l (suc (length rows)) [] [] rows first refl (omega arith)
