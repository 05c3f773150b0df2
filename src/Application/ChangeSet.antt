-- ===== src/Application/ChangeSet.antt =====
-- Application.ChangeSet: the change-sets of application/changeset/changeset.go, and the compare-and-swap of the store
-- in infrastructure/memory/changeset_store.go. A use case is a function on the record that it has read; the
-- record that it writes goes through `store_update`.
pub mod Erasure
pub mod World
pub mod Integrity
pub mod Publish
use Prim.{tt}
use flexitype.Prelude.{
  ℕ, ◌+◌, Bool, true, false, ◌&&◌, not, Option, none, some, List, [], ◌∷◌, ◌++◌, ◌==◌,
  if◌then◌else◌,
}
use flexitype.Prelude.Int.{ℤ, pos, neg_ℤ, ◌+ℤ◌, lt_ℤ}
use flexitype.Bytes.{Bytes, eq_bytes}
use flexitype.Domain.Errors.{
  Error, Result, ok, err, new_validation, new_forbidden, new_conflict, new_not_found, ◌>>=◌, ◌>>◌,
}
use flexitype.Domain.Names.{Ulid, TenantId, is_empty}
use flexitype.Domain.Attribute.Constraint.{none_left}

pub data State : Type 0 where
  draft in_review approved publishing published rejected : State

pub data MutationKind : Type 0 where
  mutation_set mutation_remove : MutationKind
  unknown_mutation : Bytes → MutationKind

pub record Mutation : Type 0 where
  pub kind : MutationKind
  pub attribute_definition_id : Bytes
  pub entity_id : Bytes
  pub type_definition_id : Bytes
  pub locale : Bytes
  pub channel : Bytes
  pub value : Bytes
  pub redacted : Bool
  pub erased : Bool

pub record ChangeSet : Type 0 where
  pub id : Ulid
  pub tenant_id : TenantId
  pub name : Bytes
  pub state : State
  pub require_approval : Bool
  pub author : Bytes
  pub approver : Bytes
  pub mutations : List Mutation
  pub publish_at : Option ℤ
  pub created_at : ℤ
  pub updated_at : ℤ
  pub published_at : Option ℤ
  pub version : ℕ

-- What the tests on the state ask.
abbrev pub is_draft : State → Bool
is_draft draft = true
is_draft _ = false

abbrev pub is_in_review : State → Bool
is_in_review in_review = true
is_in_review _ = false

abbrev pub is_publishing : State → Bool
is_publishing publishing = true
is_publishing _ = false

abbrev pub is_published : State → Bool
is_published published = true
is_published _ = false

-- PublishClaimTTL, in nanoseconds.
abbrev pub publish_claim_ttl : ℕ
publish_claim_ttl = 900000000000

-- Create, for the calling actor; `id` is the fresh identifier.
unfoldable pub create : Ulid → TenantId → Bytes → Bytes → Bool → Option ℤ → ℤ → Result ChangeSet
create id tenant actor name require_approval publish_at now =
    if is_empty name
    then err (new_validation "change-set name is required")
    else ok (record {
      id = id;
      tenant_id = tenant;
      name = name;
      state = draft;
      require_approval = require_approval;
      author = actor;
      approver = [];
      mutations = [];
      publish_at = publish_at;
      created_at = now;
      updated_at = now;
      published_at = none;
      version = 1;
    })

-- What a caller asks of a set, with the caller's answer of the field ACL for a mutation, or the actor.
pub data Request : Type 0 where
  add_mutation : Mutation → Result (Unit {0}) → Request
  submit : Request
  approve : Bytes → Request
  reject : Request

abbrev known_kind : MutationKind → Bool
known_kind (unknown_mutation k) = false
known_kind _ = true

-- The function that AddMutation passes to mutate.
add : Mutation → Result (Unit {0}) → ChangeSet → Result ChangeSet
add m writable cs =
    if not (is_draft cs.state)
    then err (new_validation "change-set is not a draft")
    else if not (known_kind m.kind)
    then err (new_validation "unknown mutation kind")
    else writable >> ok (record cs { mutations = cs.mutations ++ (m ∷ []) })

to_review : ChangeSet → Result ChangeSet
to_review cs =
    if not (is_draft cs.state)
    then err (new_validation "only a draft can be submitted")
    else if none_left cs.mutations
    then err (new_validation "change-set has no mutations")
    else ok (record cs { state = in_review })

to_approved : Bytes → ChangeSet → Result ChangeSet
unfolding eq_bytes
to_approved actor cs =
    if not (is_in_review cs.state)
    then err (new_validation "only an in-review change-set can be approved")
    else if cs.require_approval && is_empty actor
    then err (new_forbidden "approval requires an authenticated account distinct from the author")
    else if cs.require_approval && eq_bytes actor cs.author
    then err (new_forbidden "approval requires a different account than the author")
    else ok (record cs { state = approved; approver = actor })

to_rejected : ChangeSet → Result ChangeSet
to_rejected cs =
    if is_published cs.state
    then err (new_validation "a published change-set cannot be rejected")
    else if is_publishing cs.state
    then err (new_validation "a publishing change-set cannot be rejected")
    else ok (record cs { state = rejected })

unfoldable pub edit : Request → ChangeSet → Result ChangeSet
unfolding add to_review to_approved to_rejected
edit (add_mutation m writable) cs = add m writable cs
edit submit cs = to_review cs
edit (approve actor) cs = to_approved actor cs
edit reject cs = to_rejected cs

-- Store.Update on a set that is there: the version has to be the stored one, and goes up.
unfoldable pub store_update : ChangeSet → ChangeSet → Result ChangeSet
unfolding eq_bytes
store_update cs stored =
    if not (eq_bytes stored.tenant_id cs.tenant_id)
    then err (new_not_found "changeset")
    else if not (stored.version == cs.version)
    then err (new_conflict "the change-set was modified by someone else; re-read it and retry")
    else ok (record cs { version = stored.version + 1 })

-- mutate, after the read of `cs`, up to the write.
unfoldable pub edited : Request → ℤ → ChangeSet → Result ChangeSet
unfolding edit
edited request now cs = do cs' ← edit request cs; ok (record cs' { updated_at = now })

-- Whether publish goes on with a set: the switch on its state.
unfoldable pub publishable : ℤ → ChangeSet → Result (Unit {0})
publishable now cs = elim cs.state [
  | approved ↦ ok tt
  | draft ↦
      if cs.require_approval
      then err (new_validation "change-set must be approved before publishing")
      else ok tt
  | in_review ↦
      if cs.require_approval
      then err (new_validation "change-set must be approved before publishing")
      else ok tt
  | publishing ↦
      if lt_ℤ (now +ℤ neg_ℤ cs.updated_at) (pos publish_claim_ttl)
      then err (new_validation "the change-set is publishing")
      else ok tt
  | published ↦ err (new_validation "change-set cannot be published")
  | rejected ↦ err (new_validation "change-set cannot be published")
]

-- The claim, up to the write.
unfoldable pub claim : ℤ → ChangeSet → Result ChangeSet
unfolding publishable
claim now cs = publishable now cs >> ok (record cs { state = publishing; updated_at = now })

abbrev pub released_state : State → State
released_state s = if is_publishing s then approved else s

-- What is written where the mutations could not be applied, from the set as it was read and as it was claimed.
unfoldable pub release : ℤ → ChangeSet → ChangeSet → ChangeSet
release now cs claimed = record claimed { state = released_state cs.state; updated_at = now }

-- What is written where they were applied.
unfoldable pub finalise : ℤ → ChangeSet → ChangeSet
finalise now claimed = record claimed {
  state = published;
  published_at = some now;
  updated_at = now;
}

-- The stored set after a write, and the error of the write.
abbrev pub after : ChangeSet → Result ChangeSet → ChangeSet
after stored (ok cs) = cs
after stored (err e) = stored

after_apply : ℤ → ChangeSet → ChangeSet → Result (Unit {0}) → ChangeSet × Result ChangeSet
unfolding release finalise store_update
after_apply now cs claimed (err e) =
    (after claimed (store_update (release now cs claimed) claimed), err e)
after_apply now cs claimed (ok u) =
    let written = store_update (finalise now claimed) claimed in (after claimed written, written)

after_claim :
    ℤ → ChangeSet → ChangeSet → Result (Unit {0}) → Result ChangeSet → ChangeSet × Result ChangeSet
unfolding after_apply
after_claim now cs stored applied (err e) = (stored, err e)
after_claim now cs stored applied (ok claimed) = after_apply now cs claimed applied

-- publish with no other writer between its writes: the set as it was read, the set that is stored, what
-- ApplyMutations returns; the set that is stored afterwards, and the answer.
unfoldable pub publish :
    ℤ → ℤ → ChangeSet → ChangeSet → Result (Unit {0}) → ChangeSet × Result ChangeSet
unfolding claim store_update after_claim
publish now later cs stored applied =
    after_claim later cs stored applied (claim now cs >>= λ claimed. store_update claimed stored)
