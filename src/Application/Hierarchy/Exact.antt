-- ===== src/Application/Hierarchy/Exact.antt =====
-- Application.Hierarchy.Exact: the types that Descendants of application/typedef/hierarchy.go returns, each once.
use flexitype.Prelude.{
  ℕ, zero, suc, ◌+◌, ◌≤◌, ◌≡◌, ◌↔◌, refl, subst, Bool, true, false, ◌&&◌, ◌||◌, not, List, [], ◌∷◌,
  ◌++◌, ◌==◌, arith, Bool-cases, inl, inr,
}
use flexitype.Domain.Errors.{ok}
use flexitype.Domain.Errors.Outcomes.{WhenOk, WhenOk-ok, WhenOk-bind, WhenOk-chain}
use flexitype.Domain.Names.{Ulid}
use flexitype.Domain.TypeDef.{TypeDefinition}
use flexitype.Application.Hierarchy.{
  Types, is_seen, has_id, fresh, ids, below, descend, descendants, max_hierarchy_depth,
}
use flexitype.Application.Hierarchy.Walks.{
  Down, here, down, is_seen-append, is_seen-ids, descendants-Complete,
}

-- One step more at the end.
Down-snoc :
    (types : Types) (n : ℕ) (x y z : Ulid) {children : List TypeDefinition}
    → Down types n x y
    → types.list_children y ≡ ok children
    → has_id z children ≡ true
    → Down types (suc n) x z
Down-snoc types zero x y z here e m = down e m here
Down-snoc types (suc n) x y z (down e' m' p) e m = down e' m' (Down-snoc types n _ y z p e m)

has_id-fresh :
    (z : Ulid) (seen : List Ulid) (kids : List TypeDefinition)
    → is_seen z (ids (fresh seen kids)) ≡ true
    → has_id z kids ≡ true
unfolding fresh is_seen ids has_id
has_id-fresh z seen [] h = cc
has_id-fresh z seen (kid ∷ kids) h =
    ground (arith, has_id-fresh z seen kids, has_id-fresh z (kid.id ∷ seen) kids)

-- Every type of a list is so many steps below a type.
abbrev AllDown : Types → ℕ → Ulid → List Ulid → Type 0
AllDown types n top xs = (z : Ulid) → is_seen z xs ≡ true → Down types n top z

below-Down :
    (types : Types) (n : ℕ) (top : Ulid) (seen frontier : List Ulid)
    → AllDown types n top frontier
    → WhenOk (λ next. AllDown types (suc n) top (ids next)) (below types seen frontier)
unfolding below ids is_seen
below-Down types n top seen [] a = λ z h. absurd (cc)
below-Down types n top seen (id ∷ frontier) a = WhenOk-bind _ (types.list_children id) _ λ kids ek.
    WhenOk-chain (λ next. AllDown types (suc n) top (ids next)) _
      (below types (ids (fresh seen kids) ++ seen) frontier) _
      (below-Down types n top (ids (fresh seen kids) ++ seen) frontier λ z h. a z (ground arith))
      λ rest h z s. elim (Bool-cases (is_seen z (ids (fresh seen kids)))) [
        | inl e ↦ Down-snoc types n top id z (a id (ground arith)) ek (has_id-fresh z seen kids e)
        | inr e ↦ h z (ground (arith, is_seen-ids z (fresh seen kids) rest))
      ]

-- A type that is at most `bound` steps below another one.
abbrev pub Within : Types → ℕ → Ulid → Ulid → Type 0
Within types bound top z = (n : ℕ) × (n ≤ bound) × Down types n top z

descend-Within :
    (types : Types) (left n bound : ℕ) (top : Ulid) (seen frontier : List Ulid)
    → n + left ≡ bound
    → AllDown types n top frontier
    → WhenOk
        (λ out. (z : Ulid) → is_seen z (ids out) ≡ true → Within types bound top z)
        (descend types left seen frontier)
unfolding descend ids is_seen
descend-Within types zero n bound top seen frontier e a = λ z h. absurd (cc)
descend-Within types (suc left) n bound top seen [] e a = λ z h. absurd (cc)
descend-Within types (suc left) n bound top seen (id ∷ frontier) e a =
    WhenOk-chain (λ next. AllDown types (suc n) top (ids next)) _ (below types seen (id ∷ frontier))
      _ (below-Down types n top seen (id ∷ frontier) a)
      λ next d.
        WhenOk-chain (λ out. (z : Ulid) → is_seen z (ids out) ≡ true → Within types bound top z) _
          (descend types left (ids next ++ seen) (ids next)) _
          (descend-Within types left (suc n) bound top (ids next ++ seen) (ids next) (omega arith)
            d)
          λ rest h z s. elim (Bool-cases (is_seen z (ids next))) [
            | inl k ↦ (suc n, omega arith, d z k)
            | inr k ↦ h z (ground (arith, is_seen-ids z next rest))
          ]

here_at : (types : Types) (x y : Ulid) → x ≡ y → Down types 0 x y
here_at types x y e = subst (Down types 0 x) e here

descendants-Within_iff :
    (types : Types) (t : TypeDefinition) (z : Ulid) {out : List TypeDefinition}
    → descendants types t ≡ ok out
    → ((t.id == z || is_seen z (ids out)) ≡ true) ↔ Within types max_hierarchy_depth t.id z
unfolding descendants is_seen
descendants-Within_iff types t z {out} e =
    (forward, λ (n, le, p). descendants-Complete types t e p le)
  where
    reached : is_seen z (ids out) ≡ true → Within types max_hierarchy_depth t.id z
    reached h =
        WhenOk-ok _ (descend types max_hierarchy_depth (t.id ∷ []) (t.id ∷ [])) out
          (descend-Within types max_hierarchy_depth 0 max_hierarchy_depth t.id (t.id ∷ [])
            (t.id ∷ []) refl λ x k. here_at types t.id x (ground arith))
          e z h

    forward : (t.id == z || is_seen z (ids out)) ≡ true → Within types max_hierarchy_depth t.id z
    forward h = elim (Bool-cases (t.id == z)) [
      | inl k ↦ (0, omega arith, here_at types t.id z (ground arith))
      | inr k ↦ reached (ground arith)
    ]

unfoldable pub is_distinct : List Ulid → Bool
unfolding is_seen
is_distinct [] = true
is_distinct (x ∷ xs) = not (is_seen x xs) && is_distinct xs

distinct-append :
    (xs ys : List TypeDefinition)
    → is_distinct (ids xs) ≡ true
    → is_distinct (ids ys) ≡ true
    → ((z : Ulid) → is_seen z (ids ys) ≡ true → is_seen z (ids xs) ≡ false)
    → is_distinct (ids (xs ++ ys)) ≡ true
unfolding ids is_distinct is_seen
distinct-append [] ys dx dy a = dy
distinct-append (x ∷ xs) ys dx dy a =
    let own = a x.id in
    let rest = distinct-append xs ys (ground arith) dy λ z h. let b = a z h in ground arith in
    ground (arith, is_seen-ids x.id xs ys)

-- The identifiers of a list differ from each other, and from those seen before.
abbrev pub Apart : List Ulid → List TypeDefinition → Type 0
Apart seen out =
    (is_distinct (ids out) ≡ true)
    × ((z : Ulid) → is_seen z (ids out) ≡ true → is_seen z seen ≡ false)

fresh-Apart : (seen : List Ulid) (kids : List TypeDefinition) → Apart seen (fresh seen kids)
unfolding fresh ids is_distinct is_seen
fresh-Apart seen [] = (refl, λ z h. cc)
fresh-Apart seen (kid ∷ kids) = elim (Bool-cases (is_seen kid.id seen)) [
  | inl e ↦ rw e (fresh-Apart seen kids)
  | inr e ↦
      let (d, a) = fresh-Apart (kid.id ∷ seen) kids in
      let own = a kid.id in rw e (ground arith, λ z h. let other = a z in ground arith)
]

Apart-append :
    (seen : List Ulid) (xs ys : List TypeDefinition)
    → Apart seen xs
    → Apart (ids xs ++ seen) ys
    → Apart seen (xs ++ ys)
Apart-append seen xs ys (dx, ax) (dy, ay) = (
  distinct-append xs ys dx dy
      λ z h. let a = ay z h in ground (arith, is_seen-append z (ids xs) seen),
  λ z h.
      let a = ay z in
      let b = ax z in ground (arith, is_seen-ids z xs ys, is_seen-append z (ids xs) seen),
)

below-Apart :
    (types : Types) (seen frontier : List Ulid) → WhenOk (Apart seen) (below types seen frontier)
unfolding below ids is_distinct is_seen
below-Apart types seen [] = (refl, λ z h. cc)
below-Apart types seen (id ∷ frontier) = WhenOk-bind _ (types.list_children id) _ λ kids ek.
    WhenOk-chain (Apart (ids (fresh seen kids) ++ seen)) _
      (below types (ids (fresh seen kids) ++ seen) frontier) _
      (below-Apart types (ids (fresh seen kids) ++ seen) frontier)
      λ rest a. Apart-append seen (fresh seen kids) rest (fresh-Apart seen kids) a

descend-Apart :
    (types : Types) (left : ℕ) (seen frontier : List Ulid)
    → WhenOk (Apart seen) (descend types left seen frontier)
unfolding descend ids is_distinct is_seen
descend-Apart types zero seen frontier = (refl, λ z h. cc)
descend-Apart types (suc left) seen [] = (refl, λ z h. cc)
descend-Apart types (suc left) seen (id ∷ frontier) =
    WhenOk-chain (Apart seen) _ (below types seen (id ∷ frontier)) _
      (below-Apart types seen (id ∷ frontier))
      λ next a.
        WhenOk-chain (Apart (ids next ++ seen)) _ (descend types left (ids next ++ seen) (ids next))
          _ (descend-Apart types left (ids next ++ seen) (ids next))
          λ rest b. Apart-append seen next rest a b

descendants-IsDistinct :
    (types : Types) (t : TypeDefinition) {out : List TypeDefinition}
    → descendants types t ≡ ok out
    → is_distinct (t.id ∷ ids out) ≡ true
unfolding descendants is_distinct is_seen
descendants-IsDistinct types t {out} e =
    let apart : Apart (t.id ∷ []) out =
      WhenOk-ok (Apart (t.id ∷ [])) _ out
        (descend-Apart types max_hierarchy_depth (t.id ∷ []) (t.id ∷ [])) e in
    let own = apart.1 t.id in let d = apart.0 in ground arith

-- The types that Descendants returns are, but for t itself, those at most 10 steps below t, each from a type to a child
-- that the repository lists; none is returned twice, nor is t.
pub descendants_iff :
    (types : Types) (t : TypeDefinition) (z : Ulid) {out : List TypeDefinition}
    → descendants types t ≡ ok out
    → (((t.id == z || is_seen z (ids out)) ≡ true) ↔ Within types max_hierarchy_depth t.id z)
      × (is_distinct (t.id ∷ ids out) ≡ true)
descendants_iff types t z e = (descendants-Within_iff types t z e, descendants-IsDistinct types t e)
