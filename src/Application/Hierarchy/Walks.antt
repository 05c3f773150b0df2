-- ===== src/Application/Hierarchy/Walks.antt =====
-- Application.Hierarchy.Walks: what Descendants of application/typedef/hierarchy.go returns.
use flexitype.Prelude.{
  ℕ, zero, suc, ◌≤◌, ◌≡◌, refl, true, false, ◌||◌, List, [], ◌∷◌, ◌++◌, ◌==◌, arith,
}
use flexitype.Domain.Errors.{ok}
use flexitype.Domain.Errors.Outcomes.{WhenOk, WhenOk-ok, WhenOk-bind, WhenOk-chain}
use flexitype.Domain.Names.{Ulid}
use flexitype.Domain.TypeDef.{TypeDefinition}
use flexitype.Application.Hierarchy.{
  Types, is_seen, has_id, fresh, ids, below, descend, descendants, max_hierarchy_depth,
}

-- `n` steps from a type down to another one, each from a type to one of its children.
pub data Down (types : Types) : ℕ → Ulid → Ulid → Type 0 where
  here : {x : Ulid} → Down types 0 x x
  down :
      {n : ℕ} {x y z : Ulid} {children : List TypeDefinition}
      → types.list_children x ≡ ok children
      → has_id y children ≡ true
      → Down types n y z
      → Down types (suc n) x z

pub is_seen-append :
    (z : Ulid) (xs ys : List Ulid) → is_seen z (xs ++ ys) ≡ (is_seen z xs || is_seen z ys)
unfolding is_seen
is_seen-append z [] ys = refl
is_seen-append z (x ∷ xs) ys = ground (arith, is_seen-append z xs ys)

pub is_seen-ids :
    (z : Ulid) (xs ys : List TypeDefinition)
    → is_seen z (ids (xs ++ ys)) ≡ (is_seen z (ids xs) || is_seen z (ids ys))
unfolding is_seen ids
is_seen-ids z [] ys = refl
is_seen-ids z (x ∷ xs) ys = ground (arith, is_seen-ids z xs ys)

is_seen-fresh :
    (z : Ulid) (seen : List Ulid) (children : List TypeDefinition)
    → (is_seen z (ids (fresh seen children)) || is_seen z seen)
      ≡ (has_id z children || is_seen z seen)
unfolding is_seen ids fresh has_id
is_seen-fresh z seen [] = refl
is_seen-fresh z seen (child ∷ children) =
    ground (arith, is_seen-fresh z seen children, is_seen-fresh z (child.id ∷ seen) children)

-- The children of the frontier are seen after the round.
abbrev Lower : Types → List Ulid → List Ulid → List TypeDefinition → Type 0
Lower types seen frontier next =
    (x y : Ulid) (children : List TypeDefinition)
    → is_seen x frontier ≡ true
    → types.list_children x ≡ ok children
    → has_id y children ≡ true
    → (is_seen y (ids next) || is_seen y seen) ≡ true

below-Lower :
    (types : Types) (seen frontier : List Ulid)
    → WhenOk (Lower types seen frontier) (below types seen frontier)
unfolding below is_seen
below-Lower types seen [] = λ x y children h. cc
below-Lower types seen (id ∷ frontier) = WhenOk-bind _ (types.list_children id) _ λ kids ek.
    WhenOk-chain (Lower types (ids (fresh seen kids) ++ seen) frontier) _
      (below types (ids (fresh seen kids) ++ seen) frontier) _
      (below-Lower types (ids (fresh seen kids) ++ seen) frontier)
      λ rest h x y children hx ec hy. ground (
        arith,
        h x y children,
        is_seen-append y (ids (fresh seen kids)) seen,
        is_seen-ids y (fresh seen kids) rest,
        is_seen-fresh y seen kids,
      )

-- Each type that is seen has all its children seen, or is on the frontier.
abbrev Closed : Types → List Ulid → List Ulid → Type 0
Closed types seen frontier =
    (x y : Ulid) (children : List TypeDefinition)
    → is_seen x seen ≡ true
    → is_seen x frontier ≡ false
    → types.list_children x ≡ ok children
    → has_id y children ≡ true
    → is_seen y seen ≡ true

-- What is so many steps below a type that is seen is seen in the end.
abbrev Complete : Types → ℕ → List Ulid → List TypeDefinition → Type 0
Complete types left seen out =
    (n : ℕ) (x z : Ulid)
    → Down types n x z
    → n ≤ left
    → is_seen x seen ≡ true
    → (is_seen z (ids out) || is_seen z seen) ≡ true

Closed-Complete :
    (types : Types) (left : ℕ) (seen : List Ulid)
    → Closed types seen []
    → Complete types left seen []
unfolding is_seen ids
Closed-Complete types left seen c n x z here le h = ground arith
Closed-Complete types left seen c (suc n) x z (down {y} {children} e m p) le h =
    Closed-Complete types left seen c n y z p (omega arith) (c x y children h refl e m)

round-Closed :
    (types : Types) (seen frontier : List Ulid) (next : List TypeDefinition)
    → Closed types seen frontier
    → Lower types seen frontier next
    → Closed types (ids next ++ seen) (ids next)
round-Closed types seen frontier next c l x y children hs hf e m = ground (
  arith,
  c x y children,
  l x y children,
  is_seen-append x (ids next) seen,
  is_seen-append y (ids next) seen,
)

descend-Complete :
    (types : Types) (left : ℕ) (seen frontier : List Ulid)
    → Closed types seen frontier
    → WhenOk (Complete types left seen) (descend types left seen frontier)
unfolding descend is_seen ids
descend-Complete types zero seen frontier c = λ n x z p le h. start n x z p le h
  where
    start :
        (n : ℕ) (x z : Ulid)
        → Down types n x z
        → n ≤ 0
        → is_seen x seen ≡ true
        → (is_seen z [] || is_seen z seen) ≡ true
    start n x z here le h = ground arith
    start (suc n) x z (down e m p) le h = absurd (omega arith)
descend-Complete types (suc left) seen [] c = Closed-Complete types (suc left) seen c
descend-Complete types (suc left) seen (id ∷ frontier) c =
    WhenOk-chain (Lower types seen (id ∷ frontier)) _ (below types seen (id ∷ frontier)) _
      (below-Lower types seen (id ∷ frontier))
      λ next l.
        WhenOk-chain (Complete types left (ids next ++ seen)) _
          (descend types left (ids next ++ seen) (ids next)) _
          (descend-Complete types left (ids next ++ seen) (ids next)
            (round-Closed types seen (id ∷ frontier) next c l))
          λ rest k. step next l rest k
  where
    step :
        (next : List TypeDefinition)
        → Lower types seen (id ∷ frontier) next
        → (rest : List TypeDefinition) → Complete types left (ids next ++ seen) rest
        → Complete types (suc left) seen (next ++ rest)
    step next l rest k n x z here le h = ground arith
    step next l rest k (suc n) x z (down {y} {children} e m p) le h =
        let after : is_seen y (ids next ++ seen) ≡ true =
          ground (arith, l x y children, c x y children, is_seen-append y (ids next) seen) in
        let last = k n y z p (omega arith) after in
        ground (arith, is_seen-append z (ids next) seen, is_seen-ids z next rest)

-- A type that is at most 10 steps below t, each from a type to a child that the repository lists, is t or among
-- the descendants that are returned.
pub descendants-Complete :
    (types : Types) (t : TypeDefinition) {out : List TypeDefinition} {n : ℕ} {z : Ulid}
    → descendants types t ≡ ok out
    → Down types n t.id z
    → n ≤ max_hierarchy_depth
    → (t.id == z || is_seen z (ids out)) ≡ true
unfolding descendants is_seen
descendants-Complete types t {out} {n} {z} e p le =
    let all : Complete types max_hierarchy_depth (t.id ∷ []) out =
      WhenOk-ok (Complete types max_hierarchy_depth (t.id ∷ [])) _ out
        (descend-Complete types max_hierarchy_depth (t.id ∷ []) (t.id ∷ [])
          λ x y children h k. absurd (cc))
        e in
    let seen = all n t.id z p le (ground arith) in ground arith
