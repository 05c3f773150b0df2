-- ===== src/ServiceAccount/Roles/Merged.antt =====
-- ServiceAccount.Roles.Merged: what Resolve takes from the roles: scopes, levels and the names that no grant has.
use flexitype.Prelude.{
  ◌≤◌, ◌<◌, ◌≡◌, refl, sym, ap, ◌∙◌, Option, none, some, List, [], ◌∷◌, arith, length,
  length-append, inl, inr, ◌⊎◌,
}
use flexitype.Bytes.{Bytes}
use flexitype.Keyed.{Keyed, get}
use flexitype.ServiceAccount.Roles.Levels.{
  rank_at, Lists, add_levels-grows, add_levels-covers, add_levels-source,
}
use flexitype.ServiceAccount.Roles.{
  RoleGrant, Merge, permission_rank, add_scope, add_scopes, add_role, add_roles,
}

add_scope-rest :
    (s : Bytes) (m : Merge)
    → ((add_scope s m).merged ≡ m.merged) × ((add_scope s m).unresolved ≡ m.unresolved)
unfolding add_scope
add_scope-rest s m = ground arith

add_scopes-rest :
    (ss : List Bytes) (m : Merge)
    → ((add_scopes ss m).merged ≡ m.merged) × ((add_scopes ss m).unresolved ≡ m.unresolved)
unfolding add_scopes
add_scopes-rest [] m = (refl, refl)
add_scopes-rest (s ∷ ss) m =
    let (a, b) = add_scope-rest s m in
    let (c, d) = add_scopes-rest ss (add_scope s m) in (c ∙ a, d ∙ b)

-- The role, where it has a grant, lists the level for the attribute.
abbrev pub RoleLists : Bytes → Bytes → Option RoleGrant → Type 0
RoleLists a level none = ⊥
RoleLists a level (some g) = Lists a level g.field_permissions

module _ (grants : Keyed RoleGrant) where
  -- A role that is held lists the level.
  abbrev pub Granted : Bytes → Bytes → List Bytes → Type 0
  Granted a level [] = ⊥
  Granted a level (name ∷ names) = RoleLists a level (get name grants) ⊎ Granted a level names

  add_role-grows :
      (a name : Bytes) (o : Option RoleGrant) (m : Merge)
      → rank_at a m.merged ≤ rank_at a (add_role name o m).merged
  unfolding add_role
  add_role-grows a name none m = omega arith
  add_role-grows a name (some g) m =
      rw (add_scopes-rest g.scopes m).0 (add_levels-grows a g.field_permissions m.merged)

  add_roles-grows :
      (a : Bytes) (names : List Bytes) (m : Merge)
      → rank_at a m.merged ≤ rank_at a (add_roles grants names m).merged
  unfolding add_roles
  add_roles-grows a [] m = omega arith
  add_roles-grows a (name ∷ names) m = omega (
    arith,
    add_role-grows a name (get name grants) m,
    add_roles-grows a names (add_role name (get name grants) m),
  )

  add_role-covers :
      (a level name : Bytes) (o : Option RoleGrant) (m : Merge)
      → RoleLists a level o
      → permission_rank level ≤ rank_at a (add_role name o m).merged
  unfolding add_role
  add_role-covers a level name none m h = absurd h
  add_role-covers a level name (some g) m h =
      add_levels-covers a level g.field_permissions (add_scopes g.scopes m).merged h

  pub add_roles-covers :
      (a level : Bytes) (names : List Bytes) (m : Merge)
      → Granted a level names
      → permission_rank level ≤ rank_at a (add_roles grants names m).merged
  unfolding add_roles
  add_roles-covers a level [] m h = absurd h
  add_roles-covers a level (name ∷ names) m (inl now) = omega (
    arith,
    add_role-covers a level name (get name grants) m now,
    add_roles-grows a names (add_role name (get name grants) m),
  )
  add_roles-covers a level (name ∷ names) m (inr later) =
      add_roles-covers a level names (add_role name (get name grants) m) later

  add_role-source :
      (a x name : Bytes) (o : Option RoleGrant) (m : Merge)
      → get a (add_role name o m).merged ≡ some x
      → (get a m.merged ≡ some x) ⊎ RoleLists a x o
  unfolding add_role
  add_role-source a x name none m h = inl h
  add_role-source a x name (some g) m h =
      elim (add_levels-source a x g.field_permissions (add_scopes g.scopes m).merged h) [
        | inl old ↦ inl (ap (get a) (sym (add_scopes-rest g.scopes m).0) ∙ old)
        | inr now ↦ inr now
      ]

  pub add_roles-source :
      (a x : Bytes) (names : List Bytes) (m : Merge)
      → get a (add_roles grants names m).merged ≡ some x
      → (get a m.merged ≡ some x) ⊎ Granted a x names
  unfolding add_roles
  add_roles-source a x [] m h = inl h
  add_roles-source a x (name ∷ names) m h =
      elim (add_roles-source a x names (add_role name (get name grants) m) h) [
        | inr later ↦ inr (inr later)
        | inl mid ↦ elim (add_role-source a x name (get name grants) m mid) [
          | inl old ↦ inl old
          | inr now ↦ inr (inl now)
        ]
      ]

  -- A name that has no grant.
  abbrev pub Missing : List Bytes → Type 0
  Missing [] = ⊥
  Missing (name ∷ names) = (get name grants ≡ none) ⊎ Missing names

  add_role-unresolved :
      (name : Bytes) (o : Option RoleGrant) (m : Merge)
      → length m.unresolved ≤ length (add_role name o m).unresolved
  unfolding add_role
  add_role-unresolved name none m = omega (arith, length-append m.unresolved (name ∷ []))
  add_role-unresolved name (some g) m = rw (add_scopes-rest g.scopes m).1 (omega arith)

  add_roles-unresolved :
      (names : List Bytes) (m : Merge)
      → length m.unresolved ≤ length (add_roles grants names m).unresolved
  unfolding add_roles
  add_roles-unresolved [] m = omega arith
  add_roles-unresolved (name ∷ names) m = omega (
    arith,
    add_role-unresolved name (get name grants) m,
    add_roles-unresolved names (add_role name (get name grants) m),
  )

  add_role-missing :
      (name : Bytes) (o : Option RoleGrant) (m : Merge)
      → o ≡ none
      → 0 < length (add_role name o m).unresolved
  unfolding add_role
  add_role-missing name none m h = omega (arith, length-append m.unresolved (name ∷ []))
  add_role-missing name (some g) m h = absurd (ground arith)

  pub add_roles-Missing :
      (names : List Bytes) (m : Merge)
      → Missing names
      → 0 < length (add_roles grants names m).unresolved
  unfolding add_roles
  add_roles-Missing [] m h = absurd h
  add_roles-Missing (name ∷ names) m (inl absent) = omega (
    arith,
    add_role-missing name (get name grants) m absent,
    add_roles-unresolved names (add_role name (get name grants) m),
  )
  add_roles-Missing (name ∷ names) m (inr later) =
      add_roles-Missing names (add_role name (get name grants) m) later
