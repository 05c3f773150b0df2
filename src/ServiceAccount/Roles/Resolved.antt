-- ===== src/ServiceAccount/Roles/Resolved.antt =====
-- ServiceAccount.Roles.Resolved: the entries for an attribute that Resolve leaves in an account.
use flexitype.Prelude.{
  ◌≤◌, ◌<◌, ◌≡◌, refl, sym, ap, ◌∙◌, false, Option, none, some, List, [], ◌∷◌, arith, ltb,
  if◌then◌else◌, length, Bool-cases, inl, inr, ◌⊎◌,
}
use flexitype.Bytes.{Bytes}
use flexitype.Keyed.{Keyed, get}
use flexitype.ServiceAccount.Account.{Account}
use flexitype.ServiceAccount.Roles.{
  RoleGrant, permission_rank, level_at, overlay, index_grants, merge_of, resolve,
}
use flexitype.ServiceAccount.Roles.Levels.{rank_at, get-overlay}
use flexitype.ServiceAccount.Roles.Merged.{
  Granted, Missing, add_roles-covers, add_roles-source, add_roles-Missing,
}

nil_of : (m : Keyed Bytes) → ltb 0 (length m) ≡ false → m ≡ []
nil_of [] h = refl
nil_of (x ∷ m) h = absurd (ground arith)

-- An account without any entry keeps its own, of which there are none.
kept :
    (a : Bytes) (own m : Keyed Bytes)
    → get a (if ltb 0 (length (overlay own m)) then overlay own m else own) ≡ get a (overlay own m)
kept a own m = elim (Bool-cases (ltb 0 (length (overlay own m)))) [
  | inl filled ↦ rw filled
  | inr bare ↦
      let nil = ap (get a) (nil_of (overlay own m) bare) in
      rw bare (unlisted (get a own) (sym (get-overlay a own m) ∙ nil) ∙ sym (nil ∙ nothing))
]
  where
    nothing : get {V = Bytes} a [] ≡ none
    nothing = unfold get in refl

    unlisted :
        (o : Option Bytes)
        → (elim o [ none ↦ get a m | some level ↦ some level ]) ≡ get a []
        → o ≡ none
    unlisted none h = refl
    unlisted (some level) h = let n = nothing in cc

level_at-get : (a : Bytes) (m m' : Keyed Bytes) → get a m ≡ get a m' → level_at a m ≡ level_at a m'
unfolding level_at
level_at-get a m m' h = rw (h, level_at)

module _ (base : Account) (names : List Bytes) (grants : List RoleGrant) (a : Bytes) where
  abbrev left : Account
  left = resolve base names grants

  abbrev index : Keyed RoleGrant
  index = index_grants grants []

  abbrev merged : Keyed Bytes
  merged = (merge_of base names grants).merged

  left_get :
      get a left.field_permissions
      ≡ elim (get a base.field_permissions) [ none ↦ get a merged | some level ↦ some level ]
  unfolding resolve
  left_get = kept a base.field_permissions merged ∙ get-overlay a base.field_permissions merged

  -- The account's own entry wins over every role.
  pub own_wins :
      (level : Bytes)
      → get a base.field_permissions ≡ some level
      → get a left.field_permissions ≡ some level
  own_wins level h = left_get ∙ rw h

  module _ (none_own : get a base.field_permissions ≡ none) where
    left_merged : get a left.field_permissions ≡ get a merged
    left_merged = left_get ∙ rw none_own

    -- Without an entry of its own the account has at least the level that any of its roles lists.
    pub role_covers :
        (level : Bytes)
        → Granted index a level names
        → permission_rank level ≤ rank_at a left.field_permissions
    role_covers level h =
        rw (level_at-get a left.field_permissions merged left_merged)
          (unfold merge_of in add_roles-covers index a level names _ h)

    -- The level is one that a role lists.
    pub role_source :
        (level : Bytes) → get a left.field_permissions ≡ some level → Granted index a level names
    role_source level h =
        none_before
          (unfold merge_of in add_roles-source index a level names _ (sym left_merged ∙ h))
      where
        none_before :
            (get a [] ≡ some level) ⊎ Granted index a level names → Granted index a level names
        none_before (inl old) = unfold get in cc
        none_before (inr granted) = granted

  -- A role that no grant has is noted.
  pub Missing-noted : Missing index names → 0 < length left.unresolved_roles
  unfolding resolve merge_of
  Missing-noted h = add_roles-Missing index names _ h
