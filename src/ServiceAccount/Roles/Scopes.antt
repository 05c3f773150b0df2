-- ===== src/ServiceAccount/Roles/Scopes.antt =====
-- ServiceAccount.Roles.Scopes: Resolve takes every scope that a role grants, but never admin.
use Prim.{tt}
use flexitype.Prelude.{
  ◌≡◌, refl, ap, ◌∙◌, Bool, true, false, ◌&&◌, ◌||◌, not, Option, none, some, List, [], ◌∷◌, ◌++◌,
  arith, Bool-cases, inl, inr, ◌⊎◌,
}
use flexitype.Bytes.{Bytes, eq_bytes, eq_bytes→eq, eq_bytes_refl}
use flexitype.Keyed.{Keyed, get, put, has, get-put, eq_bytes_sym}
use flexitype.ServiceAccount.Account.{Account, holds_scope, has_scope, scope_admin}
use flexitype.ServiceAccount.Roles.{
  RoleGrant, Merge, add_scope, add_scopes, add_role, add_roles, hold, index_grants, merge_of,
  resolve,
}

holds-append :
    (s x : Bytes) (xs : List Bytes)
    → holds_scope s (xs ++ x ∷ []) ≡ (holds_scope s xs || (eq_bytes x s || eq_bytes x scope_admin))
unfolding holds_scope
holds-append s x [] = ground arith
holds-append s x (y ∷ xs) = ground (arith, holds-append s x xs)

-- The scope among those that a role grants; admin is none of them.
unfoldable pub grants_scope : Bytes → List Bytes → Bool
grants_scope s [] = false
grants_scope s (x ∷ xs) = not (eq_bytes x scope_admin) && eq_bytes x s || grants_scope s xs

-- What the loop holds is among the scopes.
abbrev IsHeld : Merge → Type 0
IsHeld m = (s : Bytes) → has s m.held ≡ true → holds_scope s m.scopes ≡ true

has-put {ℓ} :
    {V : Type ℓ} (j k : Bytes) (v : V) (m : Keyed V) → has j (put k v m) ≡ (eq_bytes j k || has j m)
unfolding has
has-put j k v m = ground (arith, get-put j k v m)

holds_self : (s : Bytes) → (eq_bytes s s || eq_bytes s scope_admin) ≡ true
holds_self s = ground (arith, eq_bytes_refl s)

add_scope-holds :
    (s x : Bytes) (m : Merge)
    → IsHeld m
    → IsHeld (add_scope x m)
      × (holds_scope s (add_scope x m).scopes
          ≡ (holds_scope s m.scopes || not (eq_bytes x scope_admin) && eq_bytes x s))
add_scope-holds s x m v = elim (Bool-cases (eq_bytes x scope_admin)) [
  | inl adm ↦ unfold add_scope in rw adm (v, ground arith)
  | inr other ↦ elim (Bool-cases (has x m.held)) [
    | inl old ↦ unfold add_scope in rw (other, old) (v, covered (v x old) (eq_bytes x s) refl)
    | inr new ↦
        unfold add_scope in
        rw (other, new) ((λ t h. held t h), rw (holds-append, other) (ground arith))
  ]
]
  where
    held : (t : Bytes) → has t (put x tt m.held) ≡ true → holds_scope t (m.scopes ++ x ∷ []) ≡ true
    held t h =
        ground (arith, has-put t x tt m.held, holds-append t x m.scopes, eq_bytes_sym t x, v t)

    covered :
        holds_scope x m.scopes ≡ true
        → (b : Bool) → eq_bytes x s ≡ b
        → holds_scope s m.scopes ≡ (holds_scope s m.scopes || b)
    covered h true e = let k = ap (λ t. holds_scope t m.scopes) (eq_bytes→eq x s e) in ground arith
    covered h false e = ground arith

add_scopes-holds :
    (s : Bytes) (xs : List Bytes) (m : Merge)
    → IsHeld m
    → IsHeld (add_scopes xs m)
      × (holds_scope s (add_scopes xs m).scopes ≡ (holds_scope s m.scopes || grants_scope s xs))
unfolding add_scopes grants_scope
add_scopes-holds s [] m v = (v, ground arith)
add_scopes-holds s (x ∷ xs) m v =
    let (w, e) = add_scope-holds s x m v in
    let (u, f) = add_scopes-holds s xs (add_scope x m) w in (u, ground arith)

-- The role grants the scope, where it has a grant.
unfoldable pub role_grants : Bytes → Option RoleGrant → Bool
role_grants s none = false
role_grants s (some g) = grants_scope s g.scopes

unfoldable pub roles_grant : Keyed RoleGrant → Bytes → List Bytes → Bool
roles_grant grants s [] = false
roles_grant grants s (name ∷ names) = role_grants s (get name grants) || roles_grant grants s names

add_role-holds :
    (s name : Bytes) (o : Option RoleGrant) (m : Merge)
    → IsHeld m
    → IsHeld (add_role name o m)
      × (holds_scope s (add_role name o m).scopes ≡ (holds_scope s m.scopes || role_grants s o))
unfolding add_role role_grants
add_role-holds s name none m v = (v, ground arith)
add_role-holds s name (some g) m v = add_scopes-holds s g.scopes m v

add_roles-holds :
    (grants : Keyed RoleGrant) (s : Bytes) (names : List Bytes) (m : Merge)
    → IsHeld m
    → holds_scope s (add_roles grants names m).scopes
      ≡ (holds_scope s m.scopes || roles_grant grants s names)
unfolding add_roles roles_grant
add_roles-holds grants s [] m v = ground arith
add_roles-holds grants s (name ∷ names) m v =
    let (w, e) = add_role-holds s name (get name grants) m v in
    let f = add_roles-holds grants s names (add_role name (get name grants) m) w in ground arith

hold-has :
    (s : Bytes) (xs : List Bytes) (m : Keyed (Unit {0}))
    → has s (hold xs m) ≡ true
    → (holds_scope s xs ≡ true) ⊎ (has s m ≡ true)
unfolding hold holds_scope
hold-has s [] m h = inr h
hold-has s (x ∷ xs) m h = elim (hold-has s xs (put x tt m) h) [
  | inl later ↦ inl (ground arith)
  | inr now ↦ elim (Bool-cases (eq_bytes s x)) [
    | inl same ↦ inl (ground (arith, eq_bytes_sym s x))
    | inr other ↦ inr (ground (arith, has-put s x tt m))
  ]
]

none_held : (s : Bytes) → has {V = Unit {0}} s [] ≡ false
unfolding has get
none_held s = refl

-- After Resolve an account has exactly the scopes that it had and those that its roles grant, where admin is granted by
-- none of them.
pub has_scope-resolve :
    (base : Account) (names : List Bytes) (grants : List RoleGrant) (s : Bytes)
    → has_scope (resolve base names grants) s
      ≡ (has_scope base s || roles_grant (index_grants grants []) s names)
unfolding resolve merge_of has_scope
has_scope-resolve base names grants s =
    add_roles-holds (index_grants grants []) s names
      (record {
        scopes = base.scopes;
        held = hold base.scopes [];
        merged = [];
        unresolved = base.unresolved_roles;
      })
      λ t h. held t (hold-has t base.scopes [] h)
  where
    held :
        (t : Bytes)
        → (holds_scope t base.scopes ≡ true) ⊎ (has {V = Unit {0}} t [] ≡ true)
        → holds_scope t base.scopes ≡ true
    held t (inl e) = e
    held t (inr e) = let n = none_held t in cc

grants_admin : (xs : List Bytes) → grants_scope scope_admin xs ≡ false
unfolding grants_scope
grants_admin [] = refl
grants_admin (x ∷ xs) = ground (arith, grants_admin xs)

role_admin : (o : Option RoleGrant) → role_grants scope_admin o ≡ false
unfolding role_grants
role_admin none = refl
role_admin (some g) = grants_admin g.scopes

roles_admin :
    (grants : Keyed RoleGrant) (names : List Bytes) → roles_grant grants scope_admin names ≡ false
unfolding roles_grant
roles_admin grants [] = refl
roles_admin grants (name ∷ names) =
    ground (arith, role_admin (get name grants), roles_admin grants names)

-- No role makes an administrator, whatever scopes it lists.
pub admin-resolve :
    (base : Account) (names : List Bytes) (grants : List RoleGrant)
    → has_scope (resolve base names grants) scope_admin ≡ has_scope base scope_admin
admin-resolve base names grants =
    has_scope-resolve base names grants scope_admin
    ∙ ap (λ b. has_scope base scope_admin || b) (roles_admin (index_grants grants []) names)
    ∙ or_false (has_scope base scope_admin)
  where
    or_false : (b : Bool) → (b || false) ≡ b
    or_false true = refl
    or_false false = refl
