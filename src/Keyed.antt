-- ===== src/Keyed.antt =====
-- Keyed: a Go map with strings as keys, as an association list.
use flexitype.Prelude.{
  ◌≡◌, refl, Bool, true, false, ◌&&◌, ◌||◌, not, Option, none, some, List, [], ◌∷◌, arith,
  if◌then◌else◌,
}
use flexitype.Bytes.{Bytes, eq_bytes, eq_bytes→eq, eq_bytes_refl}

abbrev pub Keyed {ℓ} : Type ℓ → Type ℓ
Keyed V = List (Bytes × V)

pub eq_bytes_sym : (a b : Bytes) → eq_bytes a b ≡ eq_bytes b a
eq_bytes_sym a b =
    ground (arith, eq_bytes→eq a b, eq_bytes→eq b a, eq_bytes_refl a, eq_bytes_refl b)

module _ {ℓ} {V : Type ℓ} where
  unfoldable pub get : Bytes → Keyed V → Option V
  get k [] = none
  get k ((j, v) ∷ m) = if eq_bytes k j then some v else get k m

  -- m[k] = v.
  unfoldable pub put : Bytes → V → Keyed V → Keyed V
  put k v [] = (k, v) ∷ []
  put k v ((j, w) ∷ m) = if eq_bytes k j then (k, v) ∷ m else (j, w) ∷ put k v m

  -- delete(m, k).
  unfoldable pub erase : Bytes → Keyed V → Keyed V
  erase k [] = []
  erase k ((j, w) ∷ m) = if eq_bytes k j then erase k m else (j, w) ∷ erase k m

  unfoldable pub has : Bytes → Keyed V → Bool
  has k m = elim (get k m) [ none ↦ false | some v ↦ true ]

  pub get-put :
      (j k : Bytes) (v : V) (m : Keyed V)
      → get j (put k v m) ≡ (if eq_bytes j k then some v else get j m)
  unfolding get put
  get-put j k v [] = refl
  get-put j k v ((i, w) ∷ m) = ground (
    arith,
    eq_bytes→eq j k,
    eq_bytes→eq k i,
    eq_bytes→eq j i,
    eq_bytes_refl i,
    eq_bytes_refl j,
    eq_bytes_refl k,
    get-put j k v m,
  )

  pub get-erase :
      (j k : Bytes) (m : Keyed V) → get j (erase k m) ≡ (if eq_bytes j k then none else get j m)
  unfolding get erase
  get-erase j k [] = ground arith
  get-erase j k ((i, w) ∷ m) = ground (
    arith,
    eq_bytes→eq j k,
    eq_bytes→eq k i,
    eq_bytes→eq j i,
    eq_bytes_refl i,
    eq_bytes_refl j,
    get-erase j k m,
  )

  -- No key stands twice, as in a map.
  unfoldable pub is_map : Keyed V → Bool
  unfolding has
  is_map [] = true
  is_map ((k, v) ∷ m) = not (has k m) && is_map m

  pub has-put : (j k : Bytes) (v : V) (m : Keyed V) → has j (put k v m) ≡ (eq_bytes j k || has j m)
  unfolding has
  has-put j k v m = let e = get-put j k v m in ground arith

  pub is_map-put : (k : Bytes) (v : V) (m : Keyed V) → is_map m ≡ true → is_map (put k v m) ≡ true
  unfolding is_map put get has
  is_map-put k v [] h = refl
  is_map-put k v ((j, w) ∷ m) h =
      ground (
        arith,
        eq_bytes→eq k j,
        eq_bytes→eq j k,
        eq_bytes_refl j,
        has-put j k v m,
        is_map-put k v m,
      )
