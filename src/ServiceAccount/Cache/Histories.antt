-- ===== src/ServiceAccount/Cache/Histories.antt =====
-- ServiceAccount.Cache.Histories: the answers of the cache over every sequence of locked sections.
use flexitype.Prelude.{
  ℕ, ◌+◌, ◌<◌, ◌≡◌, refl, sym, ap, ◌∙◌, subst, Bool, false, Option, none, some, List, [], ◌∷◌,
  arith, inl, inr, ◌⊎◌, All,
}
use flexitype.Bytes.{Bytes, eq_bytes→eq}
use flexitype.Keyed.{get}
use flexitype.ServiceAccount.Account.{Account}
use flexitype.ServiceAccount.Cache.{
  Entry, Cache, tokens_of, invalidate, invalidate_tenant, purge, store, answer, hit, empty, Call,
  stores, invalidates, invalidates_tenant, step, run,
}
use flexitype.ServiceAccount.Cache.Indexed.{Indexed, stored}
use flexitype.ServiceAccount.Cache.Evicted.{
  Lacks, is_account, is_of_tenant, invalidate-Lacks, invalidate_tenant-Lacks, purge-kept,
  forget_all-kept, run-Indexed,
}

-- Invalidate of an account, and InvalidateTenant of a tenant.
pub data Eviction : Type 0 where
  of_account of_tenant : Bytes → Eviction

unfoldable pub evict : Eviction → Cache → Cache
unfolding invalidate invalidate_tenant
evict (of_account id) c = invalidate id c
evict (of_tenant id) c = invalidate_tenant id c

-- The accounts that it is about.
abbrev pub concerns : Eviction → Account → Bool
concerns (of_account id) = is_account id
concerns (of_tenant id) = is_of_tenant id

evict-Lacks : (e : Eviction) (c : Cache) → Indexed c → Lacks (concerns e) (evict e c)
unfolding evict
evict-Lacks (of_account id) c v = invalidate-Lacks id c v
evict-Lacks (of_tenant id) c v = invalidate_tenant-Lacks id c v

module _ (ttl : ℕ) where
  -- The call put the entry into the cache, under the token.
  abbrev Stored : Bytes → Entry → Call → Type 0
  Stored t e (stores now token account) =
      (t ≡ token) × (e ≡ record { account = account; expires = now + ttl })
  Stored t e _ = ⊥

  step-kept :
      (call : Call) (c : Cache) (t : Bytes) (e : Entry)
      → get t (step ttl call c).cache ≡ some e
      → (get t c.cache ≡ some e) ⊎ Stored t e call
  unfolding step store invalidate invalidate_tenant
  step-kept (stores now token account) c t e h =
      let new : Entry = record { account = account; expires = now + ttl } in
      elim (stored t token (purge now c).cache new e h) [
        | inl (same, is_new) ↦ inr (eq_bytes→eq t token same, sym is_new)
        | inr old ↦ inl (purge-kept now c t e old)
      ]
  step-kept (invalidates id) c t e h = inl (forget_all-kept (tokens_of id c.by_account) c t e h).1
  step-kept (invalidates_tenant id) c t e h =
      inl (forget_all-kept (tokens_of id c.by_tenant) c t e h).1

  -- One of the calls put the entry there.
  abbrev StoredIn : Bytes → Entry → List Call → Type 0
  StoredIn t e [] = ⊥
  StoredIn t e (call ∷ calls) = Stored t e call ⊎ StoredIn t e calls

  run-kept :
      (calls : List Call) (c : Cache) (t : Bytes) (e : Entry)
      → get t (run ttl calls c).cache ≡ some e
      → (get t c.cache ≡ some e) ⊎ StoredIn t e calls
  unfolding run
  run-kept [] c t e h = inl h
  run-kept (call ∷ calls) c t e h = elim (run-kept calls (step ttl call c) t e h) [
    | inr later ↦ inr (inr later)
    | inl mid ↦ elim (step-kept call c t e mid) [ inl old ↦ inl old | inr now ↦ inr (inl now) ]
  ]

  -- The call stores no account that the test picks out.
  abbrev pub Avoids : (Account → Bool) → Call → Type 0
  Avoids test (stores now token account) = test account ≡ false
  Avoids test _ = Unit {0}

  step-Lacks :
      (test : Account → Bool) (call : Call) (c : Cache)
      → Avoids test call
      → Lacks test c
      → Lacks test (step ttl call c)
  step-Lacks test call c avoids lacks t e h = elim (step-kept call c t e h) [
    | inl old ↦ lacks t e old
    | inr now ↦ stored_avoids call avoids now
  ]
    where
      stored_avoids : (call : Call) → Avoids test call → Stored t e call → test e.account ≡ false
      stored_avoids (stores now token account) a (same, is_new) =
          ap (λ f. test f.account) is_new ∙ a
      stored_avoids (invalidates id) a s = absurd s
      stored_avoids (invalidates_tenant id) a s = absurd s

  run-Lacks :
      (test : Account → Bool) (calls : List Call) (c : Cache)
      → All (Avoids test) calls
      → Lacks test c
      → Lacks test (run ttl calls c)
  unfolding run
  run-Lacks test [] c a lacks = lacks
  run-Lacks test (call ∷ calls) c (a, rest) lacks =
      run-Lacks test calls (step ttl call c) rest (step-Lacks test call c a lacks)

  -- An answer of the cache is an entry that has not expired.
  hit-get :
      (now : ℕ) (token : Bytes) (c : Cache) (account : Account)
      → hit now token c ≡ some account
      → (e : Entry) × (get token c.cache ≡ some e) × (e.account ≡ account) × (now < e.expires)
  unfolding hit
  hit-get now token c account = go (get token c.cache)
    where
      go :
          (o : Option Entry)
          → answer now o ≡ some account
          → (e : Entry) × (o ≡ some e) × (e.account ≡ account) × (now < e.expires)
      go none h = cc
      go (some e) h = (e, refl, ground arith, ground arith)

  hit-Lacks :
      (test : Account → Bool) (now : ℕ) (token : Bytes) (c : Cache) (account : Account)
      → Lacks test c
      → hit now token c ≡ some account
      → test account ≡ false
  hit-Lacks test now token c account lacks h =
      let (e, found, same, fresh) = hit-get now token c account h in
      ap test (sym same) ∙ lacks token e found

  empty-Indexed : Indexed empty
  unfolding empty get
  empty-Indexed = record { by_account = λ t e h. cc; by_tenant = λ t e h. cc }

  -- Whatever came before, once an account or a tenant has been invalidated, the cache answers with no account that the
  -- invalidation is about, until such an account is stored again.
  pub hit-after_eviction :
      (before later : List Call) (e : Eviction) (now : ℕ) (token : Bytes) (account : Account)
      → All (Avoids (concerns e)) later
      → hit now token (run ttl later (evict e (run ttl before empty))) ≡ some account
      → concerns e account ≡ false
  hit-after_eviction before later e now token account avoids h =
      let c = run ttl before empty in
      let v = run-Indexed ttl before empty empty-Indexed in
      hit-Lacks (concerns e) now token (run ttl later (evict e c)) account
        (run-Lacks (concerns e) later (evict e c) avoids (evict-Lacks e c v)) h

  -- A call of the list stored the account for the token, less than the time to live ago.
  abbrev pub StoredLately : ℕ → Bytes → Account → List Call → Type 0
  StoredLately now token account [] = ⊥
  StoredLately now token account (stores before token' account' ∷ calls) =
      ((token ≡ token') × (account ≡ account') × (now < before + ttl))
      ⊎ StoredLately now token account calls
  StoredLately now token account (invalidates id ∷ calls) = StoredLately now token account calls
  StoredLately now token account (invalidates_tenant id ∷ calls) =
      StoredLately now token account calls

  lately :
      (calls : List Call) (now : ℕ) (token : Bytes) (e : Entry)
      → now < e.expires
      → StoredIn token e calls
      → StoredLately now token e.account calls
  lately [] now token e h s = s
  lately (stores before token' account' ∷ calls) now token e h (inl (same, is_new)) =
      inl (same, ap (λ f. f.account) is_new, subst (λ f. now < f.expires) is_new h)
  lately (stores before token' account' ∷ calls) now token e h (inr s) =
      inr (lately calls now token e h s)
  lately (invalidates id ∷ calls) now token e h (inl s) = absurd s
  lately (invalidates id ∷ calls) now token e h (inr s) = lately calls now token e h s
  lately (invalidates_tenant id ∷ calls) now token e h (inl s) = absurd s
  lately (invalidates_tenant id ∷ calls) now token e h (inr s) = lately calls now token e h s

  none_kept : (token : Bytes) (e : Entry) → get token empty.cache ≡ some e → ⊥
  unfolding empty get
  none_kept token e h = cc

  -- What the cache answers for a token, the wrapped authenticator answered for that token, less than the time to
  -- live before.
  pub hit-StoredLately :
      (calls : List Call) (now : ℕ) (token : Bytes) (account : Account)
      → hit now token (run ttl calls empty) ≡ some account
      → StoredLately now token account calls
  hit-StoredLately calls now token account h =
      let (e, found, same, fresh) = hit-get now token (run ttl calls empty) account h in
      subst (λ a. StoredLately now token a calls) same
        (lately calls now token e fresh (elim (run-kept calls empty token e found) [
          | inl old ↦ absurd (none_kept token e old)
          | inr s ↦ s
        ]))
