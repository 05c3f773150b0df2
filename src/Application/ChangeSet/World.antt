-- ===== src/Application/ChangeSet/World.antt =====
-- Application.ChangeSet.World: any number of callers on one change-set. Each works on a record that it has read at some
-- time, so on any record that was ever stored, and its write lands or is refused by the compare-and-swap. A publish
-- may stop after its claim. An erasure may come at any time, and is no change of the version. A record is a value, as the
-- store of infrastructure/postgres hands it out; the memory store shares the mutations of what it hands out.
use mathlib.Core.List.{Memᴰ}
use mathlib.Core.List.Memᴰ
use flexitype.Prelude.{◌+◌, ◌<◌, ◌≡◌, refl, sym, ap, ◌∙◌, Bool, List, [], ◌∷◌, arith, ◌⊎◌, inl, inr}
use flexitype.Prelude.Int.{ℤ}
use flexitype.Domain.Errors.{ok}
use flexitype.Domain.Names.{TenantId}
use flexitype.Application.ChangeSet.{
  ChangeSet, Mutation, publishing, Request, edited, claim, release, finalise, store_update,
  publishable,
}
use flexitype.Application.ChangeSet.Erasure.{Backend, redact, skeleton, skeleton-redact}

-- A publish that runs, or was stranded: the set as it was read, and as it was claimed.
pub record Claim : Type 0 where
  pub read : ChangeSet
  pub claimed : ChangeSet

-- The record that is stored, the records that were, and the claims.
pub record World : Type 0 where
  pub stored : ChangeSet
  pub past : List ChangeSet
  pub claims : List Claim

-- The world after a write that landed.
abbrev pub written : World → ChangeSet → World
written w n = record w { stored = n; past = w.stored ∷ w.past }

-- What a caller may have read.
abbrev pub HasRead : World → ChangeSet → Type 0
HasRead w cs = Memᴰ cs (w.stored ∷ w.past)

-- A write that lands: an edit, a claim, the end of a publish that holds a claim, and an erasure, which reads nothing.
pub data Step (w : World) : World → Type 0 where
  edits :
      (request : Request) (now : ℤ) (cs cs' n : ChangeSet)
      → HasRead w cs
      → edited request now cs ≡ ok cs'
      → store_update cs' w.stored ≡ ok n
      → Step w (written w n)
  claims_set :
      (now : ℤ) (cs cs' n : ChangeSet)
      → HasRead w cs
      → claim now cs ≡ ok cs'
      → store_update cs' w.stored ≡ ok n
      → Step w (record (written w n) { claims = record { read = cs; claimed = n } ∷ w.claims })
  releases :
      (now : ℤ) (c : Claim) (n : ChangeSet)
      → Memᴰ c w.claims
      → store_update (release now c.read c.claimed) w.stored ≡ ok n
      → Step w (written w n)
  finalises :
      (now : ℤ) (c : Claim) (n : ChangeSet)
      → Memᴰ c w.claims
      → store_update (finalise now c.claimed) w.stored ≡ ok n
      → Step w (written w n)
  erases :
      (backend : Backend) (tenant : TenantId) (match : Mutation → Bool)
      → Step w (written w (redact backend tenant match w.stored))

pub data Reaches (w : World) : World → Type 0 where
  start : Reaches w w
  next : (u v : World) → Reaches w u → Step u v → Reaches w v

-- A record was stored before the last write, or differs from the one that is stored in erased values alone.
abbrev pub IsOlder : World → ChangeSet → Type 0
IsOlder w cs = (cs.version < w.stored.version) ⊎ (skeleton cs ≡ skeleton w.stored)

abbrev pub IsKnown : World → Claim → Type 0
IsKnown w c =
    HasRead w c.read
    × HasRead w c.claimed
    × (c.claimed.state ≡ publishing)
    × (c.claimed.version ≡ c.read.version + 1)

-- The versions order what was stored.
pub record IsOrdered (w : World) : Type 0 where
  pub older : (cs : ChangeSet) → Memᴰ cs w.past → IsOlder w cs
  pub known : (c : Claim) → Memᴰ c w.claims → IsKnown w c

pub update_version :
    (cs stored n : ChangeSet)
    → store_update cs stored ≡ ok n
    → (cs.version ≡ stored.version) × (n ≡ record cs { version = stored.version + 1 })
unfolding store_update
update_version cs stored n h = ground arith

-- A write that lands is a write on the record that is stored, but for values that were erased since.
pub read-is-stored :
    (w : World) (cs : ChangeSet)
    → IsOrdered w
    → HasRead w cs
    → cs.version ≡ w.stored.version
    → skeleton cs ≡ skeleton w.stored
read-is-stored w cs o (Memᴰ.head e) h = ap skeleton e
read-is-stored w cs o (Memᴰ.tail m) h = elim (o.older cs m) [
  | inl before ↦ absurd (omega arith)
  | inr same ↦ same
]

same_version : (cs d : ChangeSet) → skeleton cs ≡ skeleton d → cs.version ≡ d.version
unfolding skeleton
same_version cs d e = ap (λ x. x.version) e

newer :
    (w : World) (n cs : ChangeSet)
    → IsOrdered w
    → n.version ≡ w.stored.version + 1
    → HasRead w cs
    → cs.version < n.version
newer w n cs o h (Memᴰ.head e) = rw e (omega arith)
newer w n cs o h (Memᴰ.tail m) = elim (o.older cs m) [
  | inl before ↦ omega arith
  | inr same ↦ omega (arith, same_version cs w.stored same)
]

still-IsKnown : (w : World) (n : ChangeSet) (c : Claim) → IsKnown w c → IsKnown (written w n) c
still-IsKnown w n c (r, d, e, f) = (Memᴰ.tail r, Memᴰ.tail d, e, f)

written-IsOrdered :
    (w : World) (cs n : ChangeSet)
    → IsOrdered w
    → store_update cs w.stored ≡ ok n
    → IsOrdered (written w n)
written-IsOrdered w cs n o h =
    let (e, f) = update_version cs w.stored n h in
    record {
      older = λ d m. inl (newer w n d o (rw f refl) m);
      known = λ c m. still-IsKnown w n c (o.known c m);
    }

claim-lem :
    (now : ℤ) (cs cs' : ChangeSet)
    → claim now cs ≡ ok cs'
    → (cs'.version ≡ cs.version) × (cs'.state ≡ publishing)
unfolding claim publishable
claim-lem now cs cs' h = ground arith

new_claim-IsKnown :
    (w : World) (now : ℤ) (cs cs' n : ChangeSet)
    → HasRead w cs
    → claim now cs ≡ ok cs'
    → store_update cs' w.stored ≡ ok n
    → IsKnown (written w n) (record { read = cs; claimed = n })
new_claim-IsKnown w now cs cs' n r h u =
    let (same, state) = claim-lem now cs cs' h in
    let (e, f) = update_version cs' w.stored n u in
    (Memᴰ.tail r, Memᴰ.head refl, rw f state, rw f (omega arith))

IsKnown-claims :
    (w : World) (n : ChangeSet) (c d : Claim)
    → IsOrdered w
    → IsKnown (written w n) c
    → Memᴰ d (c ∷ w.claims)
    → IsKnown (written w n) d
IsKnown-claims w n c d o k (Memᴰ.head e) = rw e k
IsKnown-claims w n c d o k (Memᴰ.tail m) = still-IsKnown w n d (o.known d m)

redacted-IsOrdered :
    (w : World) (backend : Backend) (tenant : TenantId) (match : Mutation → Bool)
    → IsOrdered w
    → IsOrdered (written w (redact backend tenant match w.stored))
redacted-IsOrdered w backend tenant match o = record {
  older = λ d m. erased d m;
  known = λ c m. still-IsKnown w _ c (o.known c m);
}
  where
    same : skeleton w.stored ≡ skeleton (redact backend tenant match w.stored)
    same = sym (skeleton-redact backend tenant match w.stored)

    erased :
        (d : ChangeSet) → HasRead w d → IsOlder (written w (redact backend tenant match w.stored)) d
    erased d (Memᴰ.head e) = inr (ap skeleton e ∙ same)
    erased d (Memᴰ.tail m) = elim (o.older d m) [
      | inl before ↦ inl (omega (arith, same_version w.stored _ same))
      | inr e ↦ inr (e ∙ same)
    ]

Step-IsOrdered : (w v : World) → IsOrdered w → Step w v → IsOrdered v
Step-IsOrdered w _ o (edits request now cs cs' n r h u) = written-IsOrdered w cs' n o u
Step-IsOrdered w _ o (releases now c n m u) = written-IsOrdered w _ n o u
Step-IsOrdered w _ o (finalises now c n m u) = written-IsOrdered w _ n o u
Step-IsOrdered w _ o (erases backend tenant match) = redacted-IsOrdered w backend tenant match o
Step-IsOrdered w _ o (claims_set now cs cs' n r h u) = record {
  older = (written-IsOrdered w cs' n o u).older;
  known = λ d m. IsKnown-claims w n _ d o (new_claim-IsKnown w now cs cs' n r h u) m;
}

-- A change-set that nobody has touched since it was created.
abbrev pub fresh : ChangeSet → World
fresh cs = record { stored = cs; past = []; claims = [] }

fresh-IsOrdered : (cs : ChangeSet) → IsOrdered (fresh cs)
fresh-IsOrdered cs = record {
  older = λ d m. absurd (Memᴰ.not-nil m);
  known = λ c m. absurd (Memᴰ.not-nil m);
}

pub reached-IsOrdered : (cs : ChangeSet) (w : World) → Reaches (fresh cs) w → IsOrdered w
reached-IsOrdered cs _ start = fresh-IsOrdered cs
reached-IsOrdered cs _ (next u v r s) = Step-IsOrdered u v (reached-IsOrdered cs u r) s

-- Whatever the callers and the erasures do, and however old the record that a caller works on: a write that lands was
-- computed from the record that is stored, or from one that differs from it in nothing but values erased since.
pub update-reads-stored :
    (first : ChangeSet) (w : World) (cs cs' n : ChangeSet)
    → Reaches (fresh first) w
    → HasRead w cs
    → cs'.version ≡ cs.version
    → store_update cs' w.stored ≡ ok n
    → skeleton cs ≡ skeleton w.stored
update-reads-stored first w cs cs' n reach r same u =
    let (e, f) = update_version cs' w.stored n u in
    read-is-stored w cs (reached-IsOrdered first w reach) r (omega arith)

-- A publish that ends, well or not, ends its own claim: nothing but erasures of values has landed since.
pub ending-owns-claim :
    (first : ChangeSet) (w : World) (c : Claim) (now : ℤ) (n : ChangeSet)
    → Reaches (fresh first) w
    → Memᴰ c w.claims
    → (store_update (finalise now c.claimed) w.stored ≡ ok n)
      ⊎ (store_update (release now c.read c.claimed) w.stored ≡ ok n)
    → skeleton c.claimed ≡ skeleton w.stored
unfolding finalise release
ending-owns-claim first w c now n reach m u =
    let (r, d, e, f) = (reached-IsOrdered first w reach).known c m in
    elim u [
      | inl v ↦ update-reads-stored first w c.claimed _ n reach d refl v
      | inr v ↦ update-reads-stored first w c.claimed _ n reach d refl v
    ]
