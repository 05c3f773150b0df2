-- ===== src/Application/ChangeSet/Erasure.antt =====
-- Application.ChangeSet.Erasure: the erasure of values from stored change-sets, of infrastructure/memory/changeset_store.go
-- and infrastructure/postgres/residual_eraser.go. It rewrites the mutations and leaves the version as it is.
use flexitype.Prelude.{
  ◌≡◌, refl, Bool, true, false, ◌&&◌, not, List, [], ◌∷◌, if◌then◌else◌, Bool-cases, inl, inr,
}
use flexitype.Bytes.{eq_bytes}
use flexitype.Domain.Names.{TenantId, is_empty}
use flexitype.Application.ChangeSet.{ChangeSet, Mutation}

pub data Backend : Type 0 where
  memory postgres : Backend

-- One mutation: its value goes, and it is marked. The memory store skips a mutation that has no value.
unfoldable pub redact_mutation : Backend → (Mutation → Bool) → Mutation → Mutation
redact_mutation memory match m =
    if match m && not (is_empty m.value) then record m { value = []; erased = true } else m
redact_mutation postgres match m = if match m then record m { value = []; erased = true } else m

unfoldable pub redact_all : Backend → (Mutation → Bool) → List Mutation → List Mutation
unfolding redact_mutation
redact_all backend match [] = []
redact_all backend match (m ∷ ms) = redact_mutation backend match m ∷ redact_all backend match ms

-- redact, for one set. RedactEntity matches the mutations of an entity, RedactTenant those that name one.
unfoldable pub redact : Backend → TenantId → (Mutation → Bool) → ChangeSet → ChangeSet
unfolding redact_all eq_bytes
redact backend tenant match cs = record cs {
  mutations =
      if eq_bytes cs.tenant_id tenant then redact_all backend match cs.mutations else cs.mutations;
}

-- What an erasure leaves of a mutation: all but the value and the mark.
abbrev pub bare : Mutation → Mutation
bare m = record m { value = []; erased = false }

unfoldable pub bares : List Mutation → List Mutation
bares [] = []
bares (m ∷ ms) = bare m ∷ bares ms

-- A set but for the values of its mutations.
unfoldable pub skeleton : ChangeSet → ChangeSet
unfolding bares
skeleton cs = record cs { mutations = bares cs.mutations }

bare-redact_mutation :
    (backend : Backend) (match : Mutation → Bool) (m : Mutation)
    → bare (redact_mutation backend match m) ≡ bare m
unfolding redact_mutation
bare-redact_mutation memory match m = elim (Bool-cases (match m && not (is_empty m.value))) [
  | inl e ↦ rw e refl
  | inr e ↦ rw e refl
]
bare-redact_mutation postgres match m = elim (Bool-cases (match m)) [
  | inl e ↦ rw e refl
  | inr e ↦ rw e refl
]

bares-redact_all :
    (backend : Backend) (match : Mutation → Bool) (ms : List Mutation)
    → bares (redact_all backend match ms) ≡ bares ms
unfolding bares redact_all
bares-redact_all backend match [] = refl
bares-redact_all backend match (m ∷ ms) =
    rw (bare-redact_mutation backend match m, bares-redact_all backend match ms) refl

pub skeleton-redact :
    (backend : Backend) (tenant : TenantId) (match : Mutation → Bool) (cs : ChangeSet)
    → skeleton (redact backend tenant match cs) ≡ skeleton cs
unfolding skeleton redact
skeleton-redact backend tenant match cs = elim (Bool-cases (eq_bytes cs.tenant_id tenant)) [
  | inl e ↦ rw (e, bares-redact_all backend match cs.mutations) refl
  | inr e ↦ rw e refl
]
