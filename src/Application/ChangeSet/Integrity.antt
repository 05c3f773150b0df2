-- ===== src/Application/ChangeSet/Integrity.antt =====
-- Application.ChangeSet.Integrity: what no interleaving of callers breaks: the separation of duties, the reviewed
-- mutations, and the end of a change-set.
use mathlib.Core.List.{Memᴰ}
use mathlib.Core.List.Memᴰ
use flexitype.Prelude.{◌≡◌, refl, ap, ◌∙◌, Bool, true, false, ◌&&◌, not, Option, arith}
use flexitype.Prelude.Int.{ℤ}
use flexitype.Bytes.{Bytes, eq_bytes}
use flexitype.Domain.Errors.{ok}
use flexitype.Domain.Names.{Ulid, TenantId, is_empty}
use flexitype.Application.ChangeSet.{
  ChangeSet, Mutation, State, published, publishing, approved, is_draft, is_published, Request,
  add_mutation, submit, approve, reject, add, to_review, to_approved, to_rejected, edit, edited,
  publishable, claim, release, finalise, store_update, create,
}
use flexitype.Application.ChangeSet.Erasure.{Backend, redact, bares, skeleton, skeleton-redact}
use flexitype.Application.ChangeSet.World.{
  World, Step, erases, edits, claims_set, releases, finalises, Reaches, start, next, fresh, written,
  HasRead, IsOrdered, reached-IsOrdered, read-is-stored, update_version,
}

-- The states that follow an approval.
abbrev pub follows_approval : State → Bool
follows_approval approved = true
follows_approval publishing = true
follows_approval published = true
follows_approval _ = false

-- The approver is somebody, and not the author.
abbrev pub has_approval : ChangeSet → Bool
has_approval cs = not (is_empty cs.approver) && not (eq_bytes cs.approver cs.author)

-- A set that demands approval is past it only with one.
abbrev pub IsGuarded : ChangeSet → Type 0
IsGuarded cs = (cs.require_approval && follows_approval cs.state) ≡ true → has_approval cs ≡ true

edited-IsGuarded :
    (request : Request) (now : ℤ) (cs cs' : ChangeSet)
    → IsGuarded cs
    → edited request now cs ≡ ok cs'
    → IsGuarded cs'
unfolding edited edit add to_review to_approved to_rejected
edited-IsGuarded (add_mutation m writable) now cs cs' g h = ground arith
edited-IsGuarded submit now cs cs' g h = ground arith
edited-IsGuarded (approve actor) now cs cs' g h = ground arith
edited-IsGuarded reject now cs cs' g h = ground arith

claim-IsGuarded :
    (now : ℤ) (cs cs' : ChangeSet) → IsGuarded cs → claim now cs ≡ ok cs' → IsGuarded cs'
unfolding claim publishable
claim-IsGuarded now cs cs' g h = ground arith

release-IsGuarded :
    (now : ℤ) (cs claimed : ChangeSet)
    → IsGuarded claimed
    → claimed.state ≡ publishing
    → IsGuarded (release now cs claimed)
unfolding release
release-IsGuarded now cs claimed g h = ground arith

finalise-IsGuarded :
    (now : ℤ) (claimed : ChangeSet)
    → IsGuarded claimed
    → claimed.state ≡ publishing
    → IsGuarded (finalise now claimed)
unfolding finalise
finalise-IsGuarded now claimed g h = ground arith

redact-IsGuarded :
    (backend : Backend) (tenant : TenantId) (match : Mutation → Bool) (cs : ChangeSet)
    → IsGuarded cs
    → IsGuarded (redact backend tenant match cs)
unfolding redact
redact-IsGuarded backend tenant match cs g = g

update-IsGuarded :
    (cs stored n : ChangeSet) → IsGuarded cs → store_update cs stored ≡ ok n → IsGuarded n
update-IsGuarded cs stored n g h = rw (update_version cs stored n h).1 g

-- Every record that was ever stored.
abbrev AllGuarded : World → Type 0
AllGuarded w = (cs : ChangeSet) → HasRead w cs → IsGuarded cs

written-Guarded :
    (w : World) (n : ChangeSet) → AllGuarded w → IsGuarded n → AllGuarded (written w n)
written-Guarded w n a g cs (Memᴰ.head e) = rw e g
written-Guarded w n a g cs (Memᴰ.tail m) = a cs m

Step-Guarded : (w v : World) → IsOrdered w → AllGuarded w → Step w v → AllGuarded v
Step-Guarded w _ o a (edits request now cs cs' n r h u) =
    written-Guarded w n a
      (update-IsGuarded cs' w.stored n (edited-IsGuarded request now cs cs' (a cs r) h) u)
Step-Guarded w _ o a (claims_set now cs cs' n r h u) =
    written-Guarded w n a
      (update-IsGuarded cs' w.stored n (claim-IsGuarded now cs cs' (a cs r) h) u)
Step-Guarded w _ o a (erases backend tenant match) =
    written-Guarded w _ a
      (redact-IsGuarded backend tenant match w.stored (a w.stored (Memᴰ.head refl)))
Step-Guarded w _ o a (releases now c n m u) =
    let (r, d, e, f) = o.known c m in
    written-Guarded w n a
      (update-IsGuarded _ w.stored n (release-IsGuarded now c.read c.claimed (a c.claimed d) e) u)
Step-Guarded w _ o a (finalises now c n m u) =
    let (r, d, e, f) = o.known c m in
    written-Guarded w n a
      (update-IsGuarded _ w.stored n (finalise-IsGuarded now c.claimed (a c.claimed d) e) u)

reached-Guarded : (cs : ChangeSet) (w : World) → IsGuarded cs → Reaches (fresh cs) w → AllGuarded w
reached-Guarded cs _ g start d (Memᴰ.head e) = rw e g
reached-Guarded cs _ g start d (Memᴰ.tail m) = absurd (Memᴰ.not-nil m)
reached-Guarded cs _ g (next u v r s) d m =
    Step-Guarded u v (reached-IsOrdered cs u r) (reached-Guarded cs u g r) s d m

create-IsGuarded :
    (id : Ulid) (tenant : TenantId) (actor name : Bytes) (require : Bool) (at : Option ℤ) (now : ℤ)
    (cs : ChangeSet)
    → create id tenant actor name require at now ≡ ok cs
    → IsGuarded cs
unfolding create
create-IsGuarded id tenant actor name require at now cs h = ground arith

-- Separation of duties: whatever the callers do to a set that Create has made, and however their calls interleave, a
-- set that demands approval is approved, publishing or published only with an approver who is
-- identified and is not its author.
pub separation_of_duties :
    (id : Ulid) (tenant : TenantId) (actor name : Bytes) (require : Bool) (at : Option ℤ) (now : ℤ)
    (cs : ChangeSet) (w : World)
    → create id tenant actor name require at now ≡ ok cs
    → Reaches (fresh cs) w
    → (w.stored.require_approval && follows_approval w.stored.state) ≡ true
    → has_approval w.stored ≡ true
separation_of_duties id tenant actor name require at now cs w h r =
    reached-Guarded cs w (create-IsGuarded id tenant actor name require at now cs h) r w.stored
      (Memᴰ.head refl)

-- What a caller keeps of the record that it works on: the identity always, the mutations once the set is no draft; and it
-- does not work on a published set.
pub record Carries (cs n : ChangeSet) : Type 0 where
  pub id : n.id ≡ cs.id
  pub tenant_id : n.tenant_id ≡ cs.tenant_id
  pub author : n.author ≡ cs.author
  pub require_approval : n.require_approval ≡ cs.require_approval
  pub mutations : is_draft cs.state ≡ false → n.mutations ≡ cs.mutations
  pub open_before : is_published cs.state ≡ false

pub edited-Carries :
    (request : Request) (now : ℤ) (cs cs' : ChangeSet)
    → edited request now cs ≡ ok cs'
    → Carries cs cs' × (cs'.version ≡ cs.version)
unfolding edited edit add to_review to_approved to_rejected
edited-Carries (add_mutation m writable) now cs cs' h = ground arith
edited-Carries submit now cs cs' h = ground arith
edited-Carries (approve actor) now cs cs' h = ground arith
edited-Carries reject now cs cs' h = ground arith

pub claim-Carries :
    (now : ℤ) (cs cs' : ChangeSet)
    → claim now cs ≡ ok cs'
    → Carries cs cs' × (cs'.version ≡ cs.version)
unfolding claim publishable
claim-Carries now cs cs' h = ground arith

release-Carries :
    (now : ℤ) (cs claimed : ChangeSet)
    → claimed.state ≡ publishing
    → Carries claimed (release now cs claimed)
unfolding release
release-Carries now cs claimed h = ground arith

finalise-Carries :
    (now : ℤ) (claimed : ChangeSet)
    → claimed.state ≡ publishing
    → Carries claimed (finalise now claimed)
unfolding finalise
finalise-Carries now claimed h = ground arith

release-version :
    (now : ℤ) (cs claimed : ChangeSet) → (release now cs claimed).version ≡ claimed.version
unfolding release
release-version now cs claimed = refl

finalise-version :
    (now : ℤ) (claimed : ChangeSet) → (finalise now claimed).version ≡ claimed.version
unfolding finalise
finalise-version now claimed = refl

-- What a write on the stored set may not change: the identity always; the mutations, but for erased values, once the set is
-- no draft; and of a published set anything but the values of its mutations.
pub record Keeps (cs n : ChangeSet) : Type 0 where
  pub id : n.id ≡ cs.id
  pub tenant_id : n.tenant_id ≡ cs.tenant_id
  pub author : n.author ≡ cs.author
  pub require_approval : n.require_approval ≡ cs.require_approval
  pub mutations : is_draft cs.state ≡ false → bares n.mutations ≡ bares cs.mutations
  pub published_stays : is_published cs.state ≡ true → skeleton n ≡ skeleton cs

-- A caller's record that is the stored one, but for erased values.
Carries-stored :
    (cs n stored : ChangeSet) → skeleton cs ≡ skeleton stored → Carries cs n → Keeps stored n
unfolding skeleton
Carries-stored cs n stored e k =
    let state = ap (λ x. x.state) e in
    record {
      id = k.id ∙ ap (λ x. x.id) e;
      tenant_id = k.tenant_id ∙ ap (λ x. x.tenant_id) e;
      author = k.author ∙ ap (λ x. x.author) e;
      require_approval = k.require_approval ∙ ap (λ x. x.require_approval) e;
      mutations = λ d. ap bares (k.mutations (ap is_draft state ∙ d)) ∙ ap (λ x. x.mutations) e;
      published_stays = λ p. absurd (no_both (ap is_published state ∙ p) k.open_before);
    }
  where
    no_both : {b : Bool} → b ≡ true → b ≡ false → ⊥
    no_both h f = cc

redact-Keeps :
    (backend : Backend) (tenant : TenantId) (match : Mutation → Bool) (cs : ChangeSet)
    → Keeps cs (redact backend tenant match cs)
unfolding redact skeleton
redact-Keeps backend tenant match cs =
    let same = skeleton-redact backend tenant match cs in
    record {
      id = refl;
      tenant_id = refl;
      author = refl;
      require_approval = refl;
      mutations = λ d. ap (λ x. x.mutations) same;
      published_stays = λ p. same;
    }

update-Keeps :
    (w : World) (cs cs' n : ChangeSet)
    → IsOrdered w
    → HasRead w cs
    → cs'.version ≡ cs.version
    → Carries cs cs'
    → store_update cs' w.stored ≡ ok n
    → Keeps w.stored n
update-Keeps w cs cs' n o r same k u =
    let (e, f) = update_version cs' w.stored n u in
    Carries-stored cs n w.stored (read-is-stored w cs o r (omega arith)) (rw f (ground arith))

Step-Keeps : (w v : World) → IsOrdered w → Step w v → Keeps w.stored v.stored
Step-Keeps w _ o (edits request now cs cs' n r h u) =
    let (k, same) = edited-Carries request now cs cs' h in update-Keeps w cs cs' n o r same k u
Step-Keeps w _ o (claims_set now cs cs' n r h u) =
    let (k, same) = claim-Carries now cs cs' h in update-Keeps w cs cs' n o r same k u
Step-Keeps w _ o (releases now c n m u) =
    let (r, d, e, f) = o.known c m in
    update-Keeps w c.claimed _ n o d (release-version now c.read c.claimed)
      (release-Carries now c.read c.claimed e) u
Step-Keeps w _ o (finalises now c n m u) =
    let (r, d, e, f) = o.known c m in
    update-Keeps w c.claimed _ n o d (finalise-version now c.claimed)
      (finalise-Carries now c.claimed e) u
Step-Keeps w _ o (erases backend tenant match) = redact-Keeps backend tenant match w.stored

-- Every write that lands, from any record that a caller has read, and every erasure keeps the identity of the stored set;
-- keeps its mutations, but for the values and the marks of erasures, unless it is a draft; and leaves of a published set all
-- but those values and marks as it is.
pub landed-Keeps :
    (cs : ChangeSet) (w v : World) → Reaches (fresh cs) w → Step w v → Keeps w.stored v.stored
landed-Keeps cs w v r s = Step-Keeps w v (reached-IsOrdered cs w r) s
