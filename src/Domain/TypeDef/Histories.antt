-- ===== src/Domain/TypeDef/Histories.antt =====
-- Domain.TypeDef.Histories: what holds of a type definition over every sequence of calls.
use flexitype.Prelude.{ℕ, ◌+◌, ◌≤◌, ◌≡◌, refl, true, none, some, List, [], ◌∷◌, ◌++◌, arith}
use flexitype.Prelude.Int.{ℤ}
use flexitype.Bytes.{Bytes}
use flexitype.Domain.Errors.{Result, ok, err}
use flexitype.Domain.TypeDef.{
  TypeDefinition, Event, created, updated, archived, restored, update, archive, restore,
  is_archived,
}
use mathlib.Core.List.{foldl, foldl-append}

-- A call of a method.
pub data Call : Type 0 where
  update_call : Bytes → Bytes → ℤ → Call
  archive_call restore_call : ℤ → Call

unfoldable pub call : Call → TypeDefinition → Result (TypeDefinition × List Event)
call (update_call display_name description now) = update display_name description now
call (archive_call now) = archive now
call (restore_call now) = restore now

-- What a call leaves: an error leaves the state as it was.
abbrev pub outcome :
    TypeDefinition → Result (TypeDefinition × List Event) → TypeDefinition × List Event
outcome t (ok r) = r
outcome t (err e) = (t, [])

unfoldable pub run : TypeDefinition → List Call → TypeDefinition × List Event
unfolding call
run t [] = (t, [])
run t (c ∷ cs) =
    let (t', es) = outcome t (call c t) in let (t'', rest) = run t' cs in (t'', es ++ rest)

-- What a subscriber does to its copy of a type definition.
unfoldable pub apply : TypeDefinition → Event → TypeDefinition
apply t (created id tenant_id internal_name display_name extends_id now) = t
apply t (updated id tenant_id display_name description version now) = record t {
  display_name = display_name;
  description = description;
  version = version;
  updated_at = now;
}
apply t (archived id tenant_id now) = record t { archived_at = some now; updated_at = now }
apply t (restored id tenant_id now) = record t { archived_at = none; updated_at = now }

replay-call :
    (t : TypeDefinition) (c : Call)
    → foldl apply t (outcome t (call c t)).1 ≡ (outcome t (call c t)).0
unfolding call apply update archive restore
replay-call t (update_call display_name description now) = ground arith
replay-call t (archive_call now) = ground arith
replay-call t (restore_call now) = ground arith

-- The events that a sequence of calls emits rebuild, from the state before, the state that it leaves: no call
-- changes a field without an event that says so, and no event says more.
pub replay-run : (t : TypeDefinition) (cs : List Call) → foldl apply t (run t cs).1 ≡ (run t cs).0
unfolding run
replay-run t [] = refl
replay-run t (c ∷ cs) = rw (foldl-append, replay-call t c) (replay-run (outcome t (call c t)).0 cs)

-- The identity of a type definition.
pub record SameIdentity (t u : TypeDefinition) : Type 0 where
  pub id : t.id ≡ u.id
  pub tenant_id : t.tenant_id ≡ u.tenant_id
  pub kind : t.kind ≡ u.kind
  pub internal_name : t.internal_name ≡ u.internal_name
  pub extends_id : t.extends_id ≡ u.extends_id
  pub created_at : t.created_at ≡ u.created_at
  pub version : t.version ≤ u.version

call-SameIdentity : (t : TypeDefinition) (c : Call) → SameIdentity t (outcome t (call c t)).0
unfolding call update archive restore
call-SameIdentity t (update_call display_name description now) = ground arith
call-SameIdentity t (archive_call now) = ground arith
call-SameIdentity t (restore_call now) = ground arith

-- No sequence of calls changes the identity of a type definition, or lowers its version.
pub run-SameIdentity : (t : TypeDefinition) (cs : List Call) → SameIdentity t (run t cs).0
unfolding run
run-SameIdentity t [] = ground arith
run-SameIdentity t (c ∷ cs) =
    ground (arith, call-SameIdentity t c, run-SameIdentity (outcome t (call c t)).0 cs)

abbrev pub updates : List Event → ℕ
updates [] = 0
updates (updated _ _ _ _ _ _ ∷ es) = updates es + 1
updates (_ ∷ es) = updates es

updates-append : (es fs : List Event) → updates (es ++ fs) ≡ updates es + updates fs
updates-append [] fs = omega arith
updates-append (updated _ _ _ _ _ _ ∷ es) fs = omega (arith, updates-append es fs)
updates-append (_ ∷ es) fs = updates-append es fs

version-call :
    (t : TypeDefinition) (c : Call)
    → (outcome t (call c t)).0.version ≡ t.version + updates (outcome t (call c t)).1
unfolding call update archive restore
version-call t (update_call display_name description now) = ground arith
version-call t (archive_call now) = ground arith
version-call t (restore_call now) = ground arith

-- The version counts the `updated` events.
pub version-run :
    (t : TypeDefinition) (cs : List Call) → (run t cs).0.version ≡ t.version + updates (run t cs).1
unfolding run
version-run t [] = omega arith
version-run t (c ∷ cs) = omega (
  arith,
  version-call t c,
  version-run (outcome t (call c t)).0 cs,
  updates-append (outcome t (call c t)).1 (run (outcome t (call c t)).0 cs).1,
)

-- While a type definition is archived, a call other than `Restore` changes nothing and emits nothing.
pub archived_is_frozen :
    (t : TypeDefinition) (display_name description : Bytes) (now later : ℤ)
    → is_archived t ≡ true
    → (outcome t (update display_name description now t) ≡ (t, []))
      × (outcome t (archive later t) ≡ (t, []))
unfolding update archive
archived_is_frozen t display_name description now later h = ground arith
