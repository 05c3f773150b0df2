-- ===== src/Tests/Accounts.antt =====
-- Tests.Accounts: runs of the accounts, their roles, their tokens and the cache, and the theorems about them at concrete
-- inputs.
use Prim.{tt}
use flexitype.Prelude.{
  ◌≡◌, refl, ◌↔◌, inl, true, false, ◌||◌, not, none, some, List, [], ◌∷◌, length, All,
}
use flexitype.Bytes.{Bytes, codes, eq_bytes}
use flexitype.Domain.Errors.{ok}
use flexitype.Keyed.{get}
use flexitype.ServiceAccount.Account.{Account, has_scope}
use flexitype.ServiceAccount.Token.{mint_token, split_token, authenticate, new_store}
use flexitype.ServiceAccount.Token.Minted.{authenticate_iff, Opens}
use flexitype.ServiceAccount.Roles.{RoleGrant, resolve, index_grants}
use flexitype.ServiceAccount.Roles.Merged.{Granted}
use flexitype.ServiceAccount.Roles.Scopes.{has_scope-resolve, roles_grant}
use flexitype.ServiceAccount.Cache.{Call, stores, hit, run, invalidate, empty}
use flexitype.ServiceAccount.Cache.Histories.{
  hit-after_eviction, hit-StoredLately, Avoids, StoredLately, of_account, evict, concerns,
}
use flexitype.Application.Access.{access_for, can_read, can_write, perm_write}
use flexitype.Application.Access.Resolved.{
  access_for-resolve-IsDenied, own_entry_decides, role_gives, can_write-Granted, IsDenied,
  reads_level,
}

abbrev importer : Account
importer = record {
  id = codes "01H";
  name = codes "importer";
  tenant_id = codes "acme";
  scopes = codes "read" ∷ [];
  field_permissions = (codes "cost", codes "none") ∷ [];
  secret_hash = codes "s3";
  unresolved_roles = [];
}

abbrev editor : RoleGrant
editor = record {
  name = codes "editor";
  scopes = codes "write" ∷ codes "admin" ∷ [];
  field_permissions = (codes "price", codes "write") ∷ (codes "cost", codes "write") ∷ [];
}

abbrev held : List Bytes
held = codes "editor" ∷ []

-- The hash that keeps a secret as it is.
abbrev plain : Bytes → Bytes
plain secret = secret

split_minted : split_token (mint_token (codes "01H") (codes "s_3")) ≡ ok (codes "01H", codes "s_3")
unfolding split_token mint_token
split_minted = refl

authenticate_iff_example :
    (authenticate plain (new_store (importer ∷ [])) (codes "ft_01H_s3") ≡ ok importer)
    ↔ Opens plain (importer ∷ []) (codes "ft_01H_s3") importer
authenticate_iff_example = authenticate_iff plain (importer ∷ []) (codes "ft_01H_s3") importer

resolve-importer : (resolve importer held (editor ∷ [])).scopes ≡ codes "read" ∷ codes "write" ∷ []
unfolding resolve
resolve-importer = refl

has_scope-resolve_example : has_scope (resolve importer held (editor ∷ [])) (codes "write") ≡ (
    has_scope importer (codes "write")
    || roles_grant (index_grants (editor ∷ []) []) (codes "write") held)
has_scope-resolve_example = has_scope-resolve importer held (editor ∷ []) (codes "write")

access_for-resolve-IsDenied_example :
    IsDenied (access_for (resolve importer held [])) (codes "price")
unfolding index_grants get
access_for-resolve-IsDenied_example =
    access_for-resolve-IsDenied importer held [] (codes "price") (inl refl)

importer_complete : length (resolve importer held (editor ∷ [])).unresolved_roles ≡ 0
unfolding resolve
importer_complete = refl

own_entry_decides_example :
    let access = access_for (resolve importer held (editor ∷ [])) in
    (can_read access (codes "cost") ≡ reads_level (codes "none"))
    × (can_write access (codes "cost") ≡ eq_bytes (codes "none") perm_write)
unfolding has_scope get eq_bytes
own_entry_decides_example =
    own_entry_decides importer held (editor ∷ []) (codes "cost") refl importer_complete
      (codes "none") refl

price-Granted : Granted (index_grants (editor ∷ []) []) (codes "price") perm_write held
unfolding index_grants get eq_bytes
price-Granted = inl (inl (refl, refl))

role_gives_example :
    let access = access_for (resolve importer held (editor ∷ [])) in
    ((not (reads_level perm_write) || can_read access (codes "price")) ≡ true)
    × ((not (eq_bytes perm_write perm_write) || can_write access (codes "price")) ≡ true)
unfolding has_scope get eq_bytes
role_gives_example =
    role_gives importer held (editor ∷ []) (codes "price") refl importer_complete perm_write refl
      price-Granted

can_write-Granted_example : Granted (index_grants (editor ∷ []) []) (codes "price") perm_write held
unfolding has_scope get eq_bytes resolve can_write access_for
can_write-Granted_example =
    can_write-Granted importer held (editor ∷ []) (codes "price") refl importer_complete perm_write
      refl refl refl

abbrev token : Bytes
token = codes "ft_01H_s3"

-- A token is cached at 10 for 30.
abbrev calls : List Call
calls = stores 10 token importer ∷ []

hit_before : hit 39 token (run 30 calls empty) ≡ some importer
unfolding hit run empty eq_bytes
hit_before = refl

hit_after : hit 40 token (run 30 calls empty) ≡ none
unfolding hit run empty eq_bytes
hit_after = refl

hit_invalidated : hit 20 token (invalidate (codes "01H") (run 30 calls empty)) ≡ none
unfolding hit run empty invalidate eq_bytes
hit_invalidated = refl

hit-StoredLately_example : StoredLately 30 39 token importer calls
hit-StoredLately_example = hit-StoredLately 30 calls 39 token importer hit_before

-- Another account's token, stored after the eviction.
abbrev later : List Call
later = stores 15 (codes "ft_02H_s4") (record importer { id = codes "02H" }) ∷ []

later-Avoids : All (Avoids 30 (concerns (of_account (codes "01H")))) later
unfolding eq_bytes
later-Avoids = (refl, tt)

hit-later :
    hit 20
      (codes "ft_02H_s4")
      (run 30 later (evict (of_account (codes "01H")) (run 30 calls empty)))
    ≡ some (record importer { id = codes "02H" })
unfolding hit run empty evict eq_bytes
hit-later = refl

hit-after_eviction_example :
    concerns (of_account (codes "01H")) (record importer { id = codes "02H" }) ≡ false
hit-after_eviction_example =
    hit-after_eviction 30 calls later (of_account (codes "01H")) 20 (codes "ft_02H_s4")
      (record importer { id = codes "02H" }) later-Avoids hit-later
