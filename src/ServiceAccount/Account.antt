-- ===== src/ServiceAccount/Account.antt =====
-- ServiceAccount.Account: the accounts of pkg/serviceaccount/serviceaccount.go.
use flexitype.Prelude.{Bool, false, ◌||◌, List, [], ◌∷◌}
use flexitype.Bytes.{Bytes, eq_bytes, codes}
use flexitype.Keyed.{Keyed}

pub record Account : Type 0 where
  pub id : Bytes
  pub name : Bytes
  pub tenant_id : Bytes
  pub scopes : List Bytes
  pub field_permissions : Keyed Bytes
  pub secret_hash : Bytes
  pub unresolved_roles : List Bytes

abbrev pub scope_admin : Bytes
scope_admin = codes "admin"

unfoldable pub holds_scope : Bytes → List Bytes → Bool
holds_scope s [] = false
holds_scope s (have ∷ scopes) =
    (eq_bytes have s || eq_bytes have scope_admin) || holds_scope s scopes

-- HasScope: an administrator holds every scope.
unfoldable pub has_scope : Account → Bytes → Bool
unfolding holds_scope eq_bytes
has_scope a s = holds_scope s a.scopes
