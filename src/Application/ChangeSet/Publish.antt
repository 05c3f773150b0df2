-- ===== src/Application/ChangeSet/Publish.antt =====
-- Application.ChangeSet.Publish: what one publish leaves, where nobody else writes meanwhile, and where a rejected set ends.
use Prim.{tt}
use mathlib.Core.List.{Memᴰ}
use flexitype.Prelude.{◌+◌, ◌≡◌, refl, ap, some, arith, ◌∙◌, inl, inr}
use flexitype.Prelude.Int.{ℤ}
use flexitype.Bytes.{eq_bytes_refl}
use flexitype.Domain.Errors.{Error, Result, ok, err, ◌>>=◌}
use flexitype.Application.ChangeSet.{
  ChangeSet, published, publishing, rejected, Request, add_mutation, submit, approve, reject, add,
  to_review, to_approved, to_rejected, edit, edited, publishable, claim, release, finalise,
  store_update, publish, after_apply, after_claim, released_state,
}
use flexitype.Application.ChangeSet.Erasure.{skeleton, redact}
use flexitype.Application.ChangeSet.Integrity.{edited-Carries, claim-Carries}
use flexitype.Application.ChangeSet.World.{
  World, Claim, Step, erases, edits, claims_set, releases, finalises, Reaches, fresh,
  reached-IsOrdered, update_version, update-reads-stored, ending-owns-claim,
}

-- A write of a record of the stored version and tenant lands.
update_lands :
    (cs stored : ChangeSet)
    → cs.tenant_id ≡ stored.tenant_id
    → cs.version ≡ stored.version
    → store_update cs stored ≡ ok (record cs { version = stored.version + 1 })
unfolding store_update
update_lands cs stored t v = rw (t, v) (ground (arith, eq_bytes_refl stored.tenant_id))

claimed_of : ℤ → ChangeSet → ChangeSet
claimed_of now cs = record cs { state = publishing; updated_at = now; version = cs.version + 1 }

claim_lands :
    (now : ℤ) (cs : ChangeSet)
    → publishable now cs ≡ ok tt
    → (claim now cs >>= λ c. store_update c cs) ≡ ok (claimed_of now cs)
unfolding claim claimed_of
claim_lands now cs h = rw h (update_lands _ cs refl refl)

-- A publish of a set that is not publishable changes nothing.
publish_refused :
    (now later : ℤ) (cs : ChangeSet) (applied : Result (Unit {0})) (e : Error)
    → publishable now cs ≡ err e
    → publish now later cs cs applied ≡ (cs, err e)
unfolding publish claim after_claim
publish_refused now later cs applied e h = rw h refl

publish_applied :
    (now later : ℤ) (cs : ChangeSet) (applied : Result (Unit {0}))
    → publishable now cs ≡ ok tt
    → publish now later cs cs applied ≡ after_apply later cs (claimed_of now cs) applied
unfolding publish after_claim
publish_applied now later cs applied h = rw (claim_lands now cs h) refl

finalise_lands :
    (now later : ℤ) (cs : ChangeSet)
    → after_apply later cs (claimed_of now cs) (ok tt) ≡ (
      record cs {
        state = published;
        published_at = some later;
        updated_at = later;
        version = cs.version + 1 + 1;
      },
      ok (record cs {
        state = published;
        published_at = some later;
        updated_at = later;
        version = cs.version + 1 + 1;
      }),
    )
unfolding after_apply finalise claimed_of
finalise_lands now later cs =
    rw (update_lands (finalise later (claimed_of now cs)) (claimed_of now cs) refl refl) refl

release_lands :
    (now later : ℤ) (cs : ChangeSet) (e : Error)
    → after_apply later cs (claimed_of now cs) (err e) ≡ (
      record cs {
        state = released_state cs.state;
        updated_at = later;
        version = cs.version + 1 + 1;
      },
      err e,
    )
unfolding after_apply release claimed_of
release_lands now later cs e =
    rw (update_lands (release later cs (claimed_of now cs)) (claimed_of now cs) refl refl) refl

-- A publish in one step: refused, applied, or given back.
abbrev pub publish_at_once :
    ℤ → ChangeSet → Result (Unit {0}) → Result (Unit {0}) → ChangeSet × Result ChangeSet
publish_at_once later cs (err e) applied = (cs, err e)
publish_at_once later cs (ok u) (ok v) =
    let n = record cs {
      state = published;
      published_at = some later;
      updated_at = later;
      version = cs.version + 1 + 1;
    } in
    (n, ok n)
publish_at_once later cs (ok u) (err e) = (
  record cs { state = released_state cs.state; updated_at = later; version = cs.version + 1 + 1 },
  err e,
)

-- Where nobody else writes meanwhile, the three writes of a publish make one step: a set that is not publishable
-- stays as it is; where the mutations are applied the set is published, and nothing but its state, times and
-- version has changed; where they are not, it has the state that it was claimed from, or is approved
-- where it was claimed from a stranded publish, and the caller has the error.
pub publish_refines :
    (now later : ℤ) (cs : ChangeSet) (applied : Result (Unit {0}))
    → publish now later cs cs applied ≡ publish_at_once later cs (publishable now cs) applied
publish_refines now later cs applied = outcomes (publishable now cs) applied refl
  where
    outcomes :
        (m : Result (Unit {0})) (a : Result (Unit {0}))
        → publishable now cs ≡ m
        → publish now later cs cs a ≡ publish_at_once later cs m a
    outcomes (err e) a h = publish_refused now later cs a e h
    outcomes (ok u) (ok v) h = publish_applied now later cs (ok tt) h ∙ finalise_lands now later cs
    outcomes (ok u) (err e) h =
        publish_applied now later cs (err e) h ∙ release_lands now later cs e

again :
    (now at later : ℤ) (cs : ChangeSet)
    → publishable now cs ≡ ok tt
    → publishable at (record cs {
      state = released_state cs.state;
      updated_at = later;
      version = cs.version + 1 + 1;
    })
      ≡ ok tt
unfolding publishable
again now at later cs h = ground arith

-- A set that a failed publish has given back is publishable, whatever the time: a failure never strands it.
pub publish_again :
    (now later at : ℤ) (cs : ChangeSet) (e : Error)
    → publishable now cs ≡ ok tt
    → publishable at (publish now later cs cs (err e)).0 ≡ ok tt
publish_again now later at cs e h =
    let given_back = publish_refines now later cs (err e) in
    rw (given_back, h) (again now at later cs h)

edited-rejected :
    (request : Request) (now : ℤ) (cs cs' : ChangeSet)
    → edited request now cs ≡ ok cs'
    → cs.state ≡ rejected
    → cs'.state ≡ rejected
unfolding edited edit add to_review to_approved to_rejected
edited-rejected (add_mutation m writable) now cs cs' h s = ground arith
edited-rejected submit now cs cs' h s = ground arith
edited-rejected (approve actor) now cs cs' h s = ground arith
edited-rejected reject now cs cs' h s = ground arith

claim-rejected : (now : ℤ) (cs cs' : ChangeSet) → claim now cs ≡ ok cs' → cs.state ≡ rejected → ⊥
unfolding claim publishable
claim-rejected now cs cs' h s = ground arith

same_state : (cs d : ChangeSet) → skeleton cs ≡ skeleton d → cs.state ≡ d.state
unfolding skeleton
same_state cs d e = ap (λ x. x.state) e

not_claimed :
    (first : ChangeSet) (w : World) (c : Claim)
    → Reaches (fresh first) w
    → Memᴰ c w.claims
    → skeleton c.claimed ≡ skeleton w.stored
    → w.stored.state ≡ rejected
    → ⊥
not_claimed first w c reach m e s =
    let (r, d, f, g) = (reached-IsOrdered first w reach).known c m in
    let same = same_state c.claimed w.stored e in cc

-- A rejected set stays rejected, whatever lands on it: no caller reopens it, and no publish that had claimed it before
-- ends on it.
pub rejected_stays :
    (first : ChangeSet) (w v : World)
    → Reaches (fresh first) w
    → Step w v
    → w.stored.state ≡ rejected
    → v.stored.state ≡ rejected
rejected_stays first w _ reach (edits request now cs cs' n r h u) s =
    let stored_read =
      update-reads-stored first w cs cs' n reach r (edited-Carries request now cs cs' h).1 u in
    let (e, f) = update_version cs' w.stored n u in
    rw f (edited-rejected request now cs cs' h (same_state cs w.stored stored_read ∙ s))
rejected_stays first w _ reach (claims_set now cs cs' n r h u) s =
    let stored_read =
      update-reads-stored first w cs cs' n reach r (claim-Carries now cs cs' h).1 u in
    absurd (claim-rejected now cs cs' h (same_state cs w.stored stored_read ∙ s))
rejected_stays first w _ reach (releases now c n m u) s =
    absurd (not_claimed first w c reach m (ending-owns-claim first w c now n reach m (inr u)) s)
rejected_stays first w _ reach (finalises now c n m u) s =
    absurd (not_claimed first w c reach m (ending-owns-claim first w c now n reach m (inl u)) s)
rejected_stays first w _ reach (erases backend tenant match) s = unfold redact in s
