-- ===== src/ServiceAccount/Roles/Levels.antt =====
-- ServiceAccount.Roles.Levels: the level that an account has for an attribute, from its roles and its own entries.
use flexitype.Prelude.{
  ℕ, ◌≤◌, ◌≡◌, refl, ap, Bool, true, false, none, some, [], ◌∷◌, arith, ltb, ltb→lt, if◌then◌else◌,
  Bool-cases, inl, inr, ◌⊎◌,
}
use flexitype.Bytes.{Bytes, eq_bytes, eq_bytes→eq, eq_bytes_refl}
use flexitype.Keyed.{Keyed, get, put, get-put}
use flexitype.ServiceAccount.Roles.{
  permission_rank, more_permissive, level_at, add_level, add_levels, overlay,
}

abbrev pub rank_at : Bytes → Keyed Bytes → ℕ
rank_at attr m = permission_rank (level_at attr m)

level_at-put :
    (a attr level : Bytes) (m : Keyed Bytes)
    → level_at a (put attr level m) ≡ (if eq_bytes a attr then level else level_at a m)
unfolding level_at
level_at-put a attr level m = ground (arith, get-put a attr level m)

level_at_eq : (a b : Bytes) (m : Keyed Bytes) → eq_bytes a b ≡ true → level_at a m ≡ level_at b m
level_at_eq a b m e = ap (λ k. level_at k m) (eq_bytes→eq a b e)

rank-level-add :
    (attr level a : Bytes) (m : Keyed Bytes) → rank_at a m ≤ rank_at a (add_level attr level m)
unfolding add_level more_permissive
rank-level-add attr level a m = elim (Bool-cases (ltb (rank_at attr m) (permission_rank level))) [
  | inl up ↦
      rw (up, level_at-put)
        (elim (Bool-cases (eq_bytes a attr)) [
          | inl same ↦
              rw (same, level_at_eq a attr m same)
                (omega (arith, ltb→lt (rank_at attr m) (permission_rank level) up))
          | inr other ↦ rw other (omega arith)
        ])
  | inr no_more ↦ rw no_more (omega arith)
]

rank-level-new :
    (attr level : Bytes) (m : Keyed Bytes)
    → permission_rank level ≤ rank_at attr (add_level attr level m)
unfolding add_level more_permissive
rank-level-new attr level m = elim (Bool-cases (ltb (rank_at attr m) (permission_rank level))) [
  | inl up ↦ rw (up, level_at-put, eq_bytes_refl) (omega arith)
  | inr no_more ↦ rw no_more (ground arith)
]

-- The map lists the level for the attribute.
abbrev pub Lists : Bytes → Bytes → Keyed Bytes → Type 0
Lists a level [] = ⊥
Lists a level ((b, l) ∷ m) = ((a ≡ b) × (level ≡ l)) ⊎ Lists a level m

pub add_levels-grows :
    (a : Bytes) (levels m : Keyed Bytes) → rank_at a m ≤ rank_at a (add_levels levels m)
unfolding add_levels
add_levels-grows a [] m = omega arith
add_levels-grows a ((attr, level) ∷ levels) m =
    omega (arith, rank-level-add attr level a m, add_levels-grows a levels (add_level attr level m))

pub add_levels-covers :
    (a level : Bytes) (levels m : Keyed Bytes)
    → Lists a level levels
    → permission_rank level ≤ rank_at a (add_levels levels m)
unfolding add_levels
add_levels-covers a level [] m h = absurd h
add_levels-covers a level ((attr, l) ∷ levels) m (inl (same, this)) =
    rw (same, this)
      (omega (arith, rank-level-new attr l m, add_levels-grows attr levels (add_level attr l m)))
add_levels-covers a level ((attr, l) ∷ levels) m (inr later) =
    add_levels-covers a level levels (add_level attr l m) later

add_level-source :
    (attr level a x : Bytes) (m : Keyed Bytes)
    → get a (add_level attr level m) ≡ some x
    → (get a m ≡ some x) ⊎ ((a ≡ attr) × (x ≡ level))
unfolding add_level
add_level-source attr level a x m = go (more_permissive level (level_at attr m))
  where
    go :
        (up : Bool)
        → get a (if up then put attr level m else m) ≡ some x
        → (get a m ≡ some x) ⊎ ((a ≡ attr) × (x ≡ level))
    go false h = inl h
    go true h = elim (Bool-cases (eq_bytes a attr)) [
      | inl same ↦ inr (eq_bytes→eq a attr same, ground (arith, get-put a attr level m))
      | inr other ↦ inl (ground (arith, get-put a attr level m))
    ]

pub add_levels-source :
    (a x : Bytes) (levels m : Keyed Bytes)
    → get a (add_levels levels m) ≡ some x
    → (get a m ≡ some x) ⊎ Lists a x levels
unfolding add_levels
add_levels-source a x [] m h = inl h
add_levels-source a x ((attr, level) ∷ levels) m h =
    elim (add_levels-source a x levels (add_level attr level m) h) [
      | inr later ↦ inr (inr later)
      | inl mid ↦ elim (add_level-source attr level a x m mid) [
        | inl old ↦ inl old
        | inr now ↦ inr (inl now)
      ]
    ]

pub get-overlay :
    (a : Bytes) (own m : Keyed Bytes)
    → get a (overlay own m) ≡ elim (get a own) [ none ↦ get a m | some level ↦ some level ]
unfolding overlay get
get-overlay a [] m = refl
get-overlay a ((attr, level) ∷ own) m =
    ground (arith, get-put a attr level (overlay own m), get-overlay a own m)
