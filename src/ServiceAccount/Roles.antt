-- ===== src/ServiceAccount/Roles.antt =====
-- ServiceAccount.Roles: Resolve of pkg/serviceaccount/serviceaccount.go, which merges an account's roles into it.
pub mod Levels
pub mod Resolved
pub mod Scopes
pub mod Merged
use Prim.{tt}
use flexitype.Prelude.{
  ℕ, Bool, true, false, ◌||◌, Option, none, some, List, [], ◌∷◌, ◌++◌, ltb, ◌==◌, if◌then◌else◌,
  length,
}
use flexitype.Bytes.{Bytes, codes, eq_bytes}
use flexitype.Keyed.{Keyed, get, put, has}
use flexitype.ServiceAccount.Account.{Account, scope_admin}

-- permissionRank; a level that it lacks ranks 0.
unfoldable pub permission_rank : Bytes → ℕ
unfolding eq_bytes
permission_rank level =
    if eq_bytes level (codes "none")
    then 1
    else if eq_bytes level (codes "read")
    then 2
    else if eq_bytes level (codes "write")
    then 3
    else 0

unfoldable pub more_permissive : Bytes → Bytes → Bool
unfolding permission_rank
more_permissive a b = ltb (permission_rank b) (permission_rank a)

pub record RoleGrant : Type 0 where
  pub name : Bytes
  pub scopes : List Bytes
  pub field_permissions : Keyed Bytes

-- What the loop of Resolve changes.
pub record Merge : Type 0 where
  pub scopes : List Bytes
  pub held : Keyed (Unit {0})
  pub merged : Keyed Bytes
  pub unresolved : List Bytes

unfoldable pub index_grants : List RoleGrant → Keyed RoleGrant → Keyed RoleGrant
unfolding put
index_grants [] m = m
index_grants (g ∷ grants) m = index_grants grants (put g.name g m)

unfoldable pub hold : List Bytes → Keyed (Unit {0}) → Keyed (Unit {0})
unfolding put
hold [] m = m
hold (s ∷ scopes) m = hold scopes (put s tt m)

unfoldable pub add_scope : Bytes → Merge → Merge
unfolding put has eq_bytes
add_scope s m =
    if eq_bytes s scope_admin || has s m.held
    then m
    else record m { scopes = m.scopes ++ s ∷ []; held = put s tt m.held }

unfoldable pub add_scopes : List Bytes → Merge → Merge
unfolding add_scope
add_scopes [] m = m
add_scopes (s ∷ scopes) m = add_scopes scopes (add_scope s m)

-- merged[attr], which is empty where there is none.
unfoldable pub level_at : Bytes → Keyed Bytes → Bytes
unfolding get
level_at attr m = elim (get attr m) [ none ↦ [] | some level ↦ level ]

unfoldable pub add_level : Bytes → Bytes → Keyed Bytes → Keyed Bytes
unfolding put more_permissive level_at
add_level attr level m = if more_permissive level (level_at attr m) then put attr level m else m

unfoldable pub add_levels : Keyed Bytes → Keyed Bytes → Keyed Bytes
unfolding add_level
add_levels [] m = m
add_levels ((attr, level) ∷ levels) m = add_levels levels (add_level attr level m)

unfoldable pub add_role : Bytes → Option RoleGrant → Merge → Merge
unfolding add_scopes add_levels
add_role name none m = record m { unresolved = m.unresolved ++ name ∷ [] }
add_role name (some g) m =
    let m' = add_scopes g.scopes m in
    record m' { merged = add_levels g.field_permissions m'.merged }

unfoldable pub add_roles : Keyed RoleGrant → List Bytes → Merge → Merge
unfolding add_role get
add_roles grants [] m = m
add_roles grants (name ∷ names) m = add_roles grants names (add_role name (get name grants) m)

-- The account's own entries, over those of its roles; a Go map has no order.
unfoldable pub overlay : Keyed Bytes → Keyed Bytes → Keyed Bytes
unfolding put
overlay [] m = m
overlay ((attr, level) ∷ own) m = put attr level (overlay own m)

unfoldable pub merge_of : Account → List Bytes → List RoleGrant → Merge
unfolding add_roles index_grants hold
merge_of base names grants = add_roles (index_grants grants []) names (record {
  scopes = base.scopes;
  held = hold base.scopes [];
  merged = [];
  unresolved = base.unresolved_roles;
})

unfoldable pub resolve : Account → List Bytes → List RoleGrant → Account
unfolding merge_of overlay
resolve base names grants =
    let m = merge_of base names grants in
    let merged = overlay base.field_permissions m.merged in
    record base {
      scopes = m.scopes;
      unresolved_roles = m.unresolved;
      field_permissions = if ltb 0 (length merged) then merged else base.field_permissions;
    }
