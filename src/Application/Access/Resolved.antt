-- ===== src/Application/Access/Resolved.antt =====
-- Application.Access.Resolved: what an account may do with an attribute once its roles are merged into it.
use flexitype.Prelude.{
  ◌≤◌, ◌<◌, ◌≡◌, refl, sym, ap, ◌∙◌, Bool, true, false, ◌||◌, not, none, some, List, [], ◌∷◌, arith,
  ltb, ◌==◌, if◌then◌else◌, length, Bool-cases, Option-cases, inl, inr,
}
use flexitype.Bytes.{Bytes, eq_bytes, eq_bytes→eq, eq_bytes_refl}
use flexitype.Keyed.{Keyed, get}
use flexitype.ServiceAccount.Account.{Account, has_scope, scope_admin}
use flexitype.ServiceAccount.Roles.{RoleGrant, permission_rank, level_at, index_grants, resolve}
use flexitype.ServiceAccount.Roles.Levels.{rank_at}
use flexitype.ServiceAccount.Roles.Merged.{Granted, Missing}
use flexitype.ServiceAccount.Roles.Resolved.{own_wins, role_covers, role_source, Missing-noted}
use flexitype.ServiceAccount.Roles.Scopes.{admin-resolve}
use flexitype.Application.Access.{
  Access, perm_read, perm_write, deny_all, system_access, level, can_read, can_write, access_for,
}

-- Neither read nor written.
abbrev pub IsDenied : Access → Bytes → Type 0
IsDenied access attr = (can_read access attr ≡ false) × (can_write access attr ≡ false)

deny_all-IsDenied : (attr : Bytes) → IsDenied deny_all attr
unfolding deny_all can_read can_write level
deny_all-IsDenied attr = (refl, refl)

unresolved-IsDenied :
    (account : Account) (attr : Bytes)
    → 0 < length account.unresolved_roles
    → IsDenied (access_for account) attr
unfolding access_for
unresolved-IsDenied account attr h = go (ltb 0 (length account.unresolved_roles)) (ground arith)
  where
    go :
        (b : Bool)
        → b ≡ true
        → IsDenied
            (if b
              then deny_all
              else if has_scope account scope_admin || length account.field_permissions == 0
              then system_access
              else record { admin = false; attr = account.field_permissions; default_level = [] })
            attr
    go true e = deny_all-IsDenied attr
    go false e = cc

-- An account that names a role without a grant is denied every attribute, whatever its scopes, its own entries and its
-- other roles.
pub access_for-resolve-IsDenied :
    (base : Account) (names : List Bytes) (grants : List RoleGrant) (attr : Bytes)
    → Missing (index_grants grants []) names
    → IsDenied (access_for (resolve base names grants)) attr
access_for-resolve-IsDenied base names grants attr h =
    unresolved-IsDenied (resolve base names grants) attr (Missing-noted base names grants attr h)

-- The levels that let an attribute be read, and written.
abbrev pub reads_level : Bytes → Bool
reads_level l = eq_bytes l perm_read || eq_bytes l perm_write

filled : (attr l : Bytes) (m : Keyed Bytes) → get attr m ≡ some l → (length m == 0) ≡ false
filled attr l [] h = unfold get in cc
filled attr l (x ∷ m) h = ground arith

-- Without administrator's rights and with no role missing, an entry decides.
entry_decides :
    (account : Account) (attr l : Bytes)
    → has_scope account scope_admin ≡ false
    → length account.unresolved_roles ≡ 0
    → get attr account.field_permissions ≡ some l
    → (can_read (access_for account) attr ≡ reads_level l)
      × (can_write (access_for account) attr ≡ eq_bytes l perm_write)
unfolding access_for
entry_decides account attr l adm complete entry =
    go (ltb 0 (length account.unresolved_roles)) (has_scope account scope_admin)
      (length account.field_permissions == 0) (ground arith) adm
      (filled attr l account.field_permissions entry)
  where
    listed : Access
    listed = record { admin = false; attr = account.field_permissions; default_level = [] }

    go :
        (some_missing adm bare : Bool)
        → some_missing ≡ false
        → adm ≡ false
        → bare ≡ false
        → let a =
            if some_missing then deny_all else if adm || bare then system_access else listed in
          (can_read a attr ≡ reads_level l) × (can_write a attr ≡ eq_bytes l perm_write)
    go false false false e f g = unfold can_read can_write level in (rw entry, rw entry)
    go true adm bare e f g = cc
    go false true bare e f g = cc
    go false false true e f g = cc

rank_of_write : (l : Bytes) → 3 ≤ permission_rank l → l ≡ perm_write
unfolding permission_rank
rank_of_write l h = ground (arith, eq_bytes→eq l perm_write)

rank_of_read : (l : Bytes) → 2 ≤ permission_rank l → reads_level l ≡ true
unfolding permission_rank
rank_of_read l h = ground arith

module _ (attr : Bytes) (m : Keyed Bytes) where
  rank_none : get attr m ≡ none → rank_at attr m ≡ 0
  rank_none h = at_none (unfold level_at in rw (h, level_at))
    where
      at_none : level_at attr m ≡ [] → rank_at attr m ≡ 0
      at_none e = rw e (unfold permission_rank in refl)

  rank_some : (l : Bytes) → get attr m ≡ some l → permission_rank l ≡ rank_at attr m
  rank_some l h = ap permission_rank (unfold level_at in rw (h, level_at))

  -- A level with a rank is an entry.
  ranked :
      0 < rank_at attr m
      → (l : Bytes) × (get attr m ≡ some l) × (permission_rank l ≡ rank_at attr m)
  ranked h = elim (Option-cases (get attr m)) [
    | inl absent ↦ absurd (omega (arith, rank_none absent))
    | inr (l, found) ↦ (l, found, rank_some l found)
  ]

implied : (a b : Bool) → (a ≡ true → b ≡ true) → (not a || b) ≡ true
implied true b h = h refl
implied false b h = refl

level_ranks :
    (l : Bytes)
    → (reads_level l ≡ true → 2 ≤ permission_rank l)
      × (eq_bytes l perm_write ≡ true → 3 ≤ permission_rank l)
level_ranks l = (reading, writing)
  where
    writing : eq_bytes l perm_write ≡ true → 3 ≤ permission_rank l
    writing h = rw (eq_bytes→eq l perm_write h) (unfold permission_rank eq_bytes in omega arith)

    reading : reads_level l ≡ true → 2 ≤ permission_rank l
    reading h = elim (Bool-cases (eq_bytes l perm_read)) [
      | inl r ↦ rw (eq_bytes→eq l perm_read r) (unfold permission_rank eq_bytes in omega arith)
      | inr n ↦ let w = writing (ground arith) in omega arith
    ]

-- An account whose own scopes are not an administrator's, and that names no role without a grant.
module _ (base : Account) (names : List Bytes) (grants : List RoleGrant) (attr : Bytes)
    (adm : has_scope base scope_admin ≡ false)
    (complete : length (resolve base names grants).unresolved_roles ≡ 0) where
  abbrev account : Account
  account = resolve base names grants

  decides :
      (l : Bytes)
      → get attr account.field_permissions ≡ some l
      → (can_read (access_for account) attr ≡ reads_level l)
        × (can_write (access_for account) attr ≡ eq_bytes l perm_write)
  decides l = entry_decides account attr l (admin-resolve base names grants ∙ adm) complete

  readable : 2 ≤ rank_at attr account.field_permissions → can_read (access_for account) attr ≡ true
  readable h =
      let (l, found, same) = ranked attr account.field_permissions (omega arith) in
      (decides l found).0 ∙ rank_of_read l (omega arith)

  writable : 3 ≤ rank_at attr account.field_permissions → can_write (access_for account) attr ≡ true
  writable h =
      let (l, found, same) = ranked attr account.field_permissions (omega arith) in
      (decides l found).1
      ∙ ap (λ k. eq_bytes k perm_write) (rank_of_write l (omega arith))
      ∙ eq_bytes_refl perm_write

  -- The account's own entry for an attribute decides what it may do with it, whatever its roles grant.
  pub own_entry_decides :
      (l : Bytes)
      → get attr base.field_permissions ≡ some l
      → (can_read (access_for account) attr ≡ reads_level l)
        × (can_write (access_for account) attr ≡ eq_bytes l perm_write)
  own_entry_decides l own = decides l (own_wins base names grants attr l own)

  -- Without an entry of its own, an account may do with an attribute what any of its roles grants.
  pub role_gives :
      (l : Bytes)
      → get attr base.field_permissions ≡ none
      → Granted (index_grants grants []) attr l names
      → ((not (reads_level l) || can_read (access_for account) attr) ≡ true)
        × ((not (eq_bytes l perm_write) || can_write (access_for account) attr) ≡ true)
  role_gives l none_own granted =
      let high = role_covers base names grants attr none_own l granted in
      (
        implied (reads_level l) (can_read (access_for account) attr)
            (λ r. let k = (level_ranks l).0 r in readable (omega arith)),
        implied (eq_bytes l perm_write) (can_write (access_for account) attr)
            (λ w. let k = (level_ranks l).1 w in writable (omega arith)),
      )

  -- Without an entry of its own, an account that may write an attribute for which its roles leave an entry has a role
  -- that grants write.
  pub can_write-Granted :
      (l : Bytes)
      → get attr base.field_permissions ≡ none
      → get attr account.field_permissions ≡ some l
      → can_write (access_for account) attr ≡ true
      → Granted (index_grants grants []) attr perm_write names
  can_write-Granted l none_own found writes =
      let level = eq_bytes→eq l perm_write (sym (decides l found).1 ∙ writes) in
      role_source base names grants attr none_own perm_write (found ∙ ap some level)
