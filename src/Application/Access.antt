-- ===== src/Application/Access.antt =====
-- Application.Access: the field-level permissions of application/uow/context.go, and how the middleware of
-- internal/interfaces/http derives them from an account.
pub mod Resolved
use flexitype.Prelude.{
  ℕ, Bool, true, false, ◌&&◌, ◌||◌, not, Option, none, some, List, [], ◌∷◌, ltb, ◌==◌,
  if◌then◌else◌, length,
}
use flexitype.Bytes.{Bytes, codes, eq_bytes}
use flexitype.Domain.Names.{is_empty}
use flexitype.Keyed.{Keyed, get}
use flexitype.ServiceAccount.Account.{Account, has_scope, scope_admin}

-- Perm is a string.
pub record Access : Type 0 where
  pub admin : Bool
  pub attr : Keyed Bytes
  pub default_level : Bytes

abbrev pub perm_none : Bytes
perm_none = codes "none"

abbrev pub perm_read : Bytes
perm_read = codes "read"

abbrev pub perm_write : Bytes
perm_write = codes "write"

unfoldable pub deny_all : Access
deny_all = record { admin = false; attr = []; default_level = perm_none }

unfoldable pub system_access : Access
system_access = record { admin = true; attr = []; default_level = [] }

unfoldable pub access_from_permissions : Bool → ℕ → Keyed Bytes → Access
unfolding deny_all system_access
access_from_permissions admin unresolved permissions =
    if ltb 0 unresolved
    then deny_all
    else if admin || length permissions == 0
    then system_access
    else record { admin = false; attr = permissions; default_level = [] }

unfoldable pub level_or : Bytes → Option Bytes → Bytes
level_or default_level none = if is_empty default_level then perm_write else default_level
level_or default_level (some p) = p

-- level.
unfoldable pub level : Access → Bytes → Bytes
unfolding level_or get
level a name = level_or a.default_level (get name a.attr)

unfoldable pub hides : Keyed Bytes → Bool
unfolding eq_bytes
hides [] = false
hides ((name, p) ∷ attr) = eq_bytes p perm_none || hides attr

unfoldable pub reads_everything : Access → Bool
unfolding hides
reads_everything a =
    if a.admin
    then true
    else if eq_bytes a.default_level perm_none
    then false
    else not (hides a.attr)

unfoldable pub can_read : Access → Bytes → Bool
unfolding level eq_bytes
can_read a name =
    if a.admin
    then true
    else eq_bytes (level a name) perm_read || eq_bytes (level a name) perm_write

unfoldable pub can_write : Access → Bytes → Bool
unfolding level eq_bytes
can_write a name = if a.admin then true else eq_bytes (level a name) perm_write

-- AccessFromContextOK: the policy of the context, and whether it carried one. `fail_closed` is the state of the process.
unfoldable pub access_from_context : Bool → Option Access → Access × Bool
unfolding deny_all system_access
access_from_context fail_closed (some a) = (a, true)
access_from_context fail_closed none = (if fail_closed then deny_all else system_access, false)

-- accessFor.
unfoldable pub access_for : Account → Access
unfolding access_from_permissions has_scope
access_for account =
    access_from_permissions (has_scope account scope_admin) (length account.unresolved_roles)
      account.field_permissions
