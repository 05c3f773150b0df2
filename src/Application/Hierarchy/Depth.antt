-- ===== src/Application/Hierarchy/Depth.antt =====
-- Application.Hierarchy.Depth: how deep a type may lie for Chain of application/typedef/hierarchy.go to answer.
use flexitype.Prelude.{
  ℕ, zero, suc, ◌≡◌, refl, Bool, true, false, ◌⊎◌, Option, none, some, List, [], ◌∷◌, arith, length,
  inl, inr,
}
use flexitype.Domain.Errors.{Result, ok, err, ◌>>=◌}
use flexitype.Domain.Names.{Ulid}
use flexitype.Domain.TypeDef.{TypeDefinition}
use flexitype.Application.Hierarchy.{Types, climb, ancestors, chain, max_hierarchy_depth}

unfoldable pub is_ok {ℓ} : {A : Type ℓ} → Result A → Bool
is_ok (ok a) = true
is_ok (err e) = false

is_ok-bind {ℓ κ} :
    {A : Type ℓ} {B : Type κ} (m : Result A) (f : A → Result B)
    → is_ok m ≡ false
    → is_ok (m >>= f) ≡ false
unfolding is_ok
is_ok-bind (ok a) f h = cc
is_ok-bind (err e) f h = refl

Result-cases {ℓ} : {A : Type ℓ} (r : Result A) → ((a : A) × (r ≡ ok a)) ⊎ (is_ok r ≡ false)
unfolding is_ok
Result-cases (ok a) = inl (a, refl)
Result-cases (err e) = inr refl

-- A walk that uses every round that it has fails with one round less, whatever has been seen.
climb-Short :
    (types : Types) (left : ℕ) (seen seen' : List Ulid) (extends : Option Ulid)
    (out : List TypeDefinition)
    → climb types (suc left) seen extends ≡ ok out
    → length out ≡ left
    → is_ok (climb types left seen' extends) ≡ false
unfolding climb is_ok
climb-Short types zero seen seen' extends out e n = refl
climb-Short types (suc left) seen seen' none [] e n = absurd (omega arith)
climb-Short types (suc left) seen seen' none (o ∷ out) e n = absurd (cc)
climb-Short types (suc left) seen seen' (some p) out e n = elim (Result-cases (types.get p)) [
  | inr refused ↦ ground arith
  | inl (parent, found) ↦
      elim (Result-cases (climb types (suc left) (p ∷ seen) parent.extends_id)) [
        | inr refused ↦ ground arith
        | inl (rest, walked) ↦
            let shorter =
              climb-Short types left (p ∷ seen) (p ∷ seen') parent.extends_id rest walked
                (ground arith) in
            ground arith
      ]
]

climb-under :
    (types : Types) (left : ℕ) (seen : List Ulid) (parent : TypeDefinition)
    → types.get parent.id ≡ ok parent
    → is_ok (climb types left (parent.id ∷ seen) parent.extends_id) ≡ false
    → is_ok (climb types (suc left) seen (some parent.id)) ≡ false
unfolding climb is_ok
climb-under types left seen parent g h = ground arith

-- Where a type has nine ancestors, which the walk that Create makes allows for a type that is extended, a type that
-- extends it has no chain: Chain is refused for it.
pub chain-too_deep :
    (types : Types) (parent child : TypeDefinition) {above : List TypeDefinition}
    → ancestors types parent ≡ ok above
    → suc (length above) ≡ max_hierarchy_depth
    → child.extends_id ≡ some parent.id
    → types.get parent.id ≡ ok parent
    → is_ok (chain types child) ≡ false
unfolding chain ancestors
chain-too_deep types parent child {above} e n x g =
    let shorter =
      climb-Short types 9 (parent.id ∷ []) (parent.id ∷ child.id ∷ []) parent.extends_id above e
        (omega arith) in
    let under = climb-under types 9 (child.id ∷ []) parent g shorter in
    rw x (is_ok-bind (climb types 10 (child.id ∷ []) (some parent.id)) _ under)
