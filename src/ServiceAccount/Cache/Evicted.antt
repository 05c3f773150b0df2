-- ===== src/ServiceAccount/Cache/Evicted.antt =====
-- ServiceAccount.Cache.Evicted: what an eviction leaves, and where an answer of the cache comes from.
use flexitype.Prelude.{
  ℕ, ◌≡◌, refl, sym, ap, ◌∙◌, Bool, true, false, Option, none, some, List, [], ◌∷◌, arith, ltb,
  if◌then◌else◌, length, Bool-cases, inl, inr,
}
use flexitype.Bytes.{Bytes, eq_bytes, eq_bytes→eq}
use flexitype.Keyed.{get, erase, has}
use flexitype.ServiceAccount.Account.{Account}
use flexitype.ServiceAccount.Cache.{
  Entry, TokenSet, Index, Cache, tokens_of, forget_entry, forget, forget_all, invalidate,
  invalidate_tenant, expired, purge, Call, stores, invalidates, invalidates_tenant, step, run,
}
use flexitype.ServiceAccount.Cache.Indexed.{
  Indexed, indexed, forget_all-Indexed, store-Indexed, get-erase-some, tokens_of-erase,
}

forget_entry-kept :
    (token : Bytes) (c : Cache) (o : Option Entry) (t : Bytes) (e : Entry)
    → get token c.cache ≡ o
    → get t (forget_entry token o c).cache ≡ some e
    → (eq_bytes t token ≡ false) × (get t c.cache ≡ some e)
unfolding forget_entry
forget_entry-kept token c none t e absent h = elim (Bool-cases (eq_bytes t token)) [
  | inl same ↦ let u = ap (λ k. get k c.cache) (eq_bytes→eq t token same) in cc
  | inr other ↦ (other, h)
]
forget_entry-kept token c (some entry) t e found h = get-erase-some t token c.cache e h

-- What is left after a loop of `forget` was there, and is none of the loop's tokens.
pub forget_all-kept :
    (tokens : TokenSet) (c : Cache) (t : Bytes) (e : Entry)
    → get t (forget_all tokens c).cache ≡ some e
    → (has t tokens ≡ false) × (get t c.cache ≡ some e)
unfolding forget_all forget has get
forget_all-kept [] c t e h = (refl, h)
forget_all-kept ((token, u) ∷ tokens) c t e h =
    let (later, mid) = forget_all-kept tokens (forget token c) t e h in
    let (other, old) = forget_entry-kept token c (get token c.cache) t e refl mid in
    (ground arith, old)

pub purge-kept :
    (now : ℕ) (c : Cache) (t : Bytes) (e : Entry)
    → get t (purge now c).cache ≡ some e
    → get t c.cache ≡ some e
unfolding purge
purge-kept now c t e = go (ltb 1024 (length c.cache))
  where
    go :
        (many : Bool)
        → get t (if many then forget_all (expired now c.cache) c else c).cache ≡ some e
        → get t c.cache ≡ some e
    go true h = (forget_all-kept (expired now c.cache) c t e h).1
    go false h = h

-- No cached token resolves to an account that the test picks out.
abbrev pub Lacks : (Account → Bool) → Cache → Type 0
Lacks test c = (t : Bytes) (e : Entry) → get t c.cache ≡ some e → test e.account ≡ false

abbrev pub is_account : Bytes → Account → Bool
is_account id a = eq_bytes a.id id

abbrev pub is_of_tenant : Bytes → Account → Bool
is_of_tenant id a = eq_bytes a.tenant_id id

pub invalidate-Lacks :
    (id : Bytes) (c : Cache) → Indexed c → Lacks (is_account id) (invalidate id c)
unfolding invalidate
invalidate-Lacks id c v t e h =
    let (unlisted, old) = forget_all-kept (tokens_of id c.by_account) c t e h in
    elim (Bool-cases (eq_bytes e.account.id id)) [
      | inl same ↦
          let listed = v.by_account t e old in
          let key = ap (λ k. indexed k t c.by_account) (eq_bytes→eq e.account.id id same) in
          absurd (false≢true (sym unlisted ∙ sym key ∙ listed))
      | inr other ↦ other
    ]
  where
    false≢true : false ≡ true → ⊥
    false≢true e = cc

-- The set of another key is left.
indexed-erase :
    (key t id : Bytes) (index : Index)
    → eq_bytes key id ≡ false
    → indexed key t (erase id index) ≡ indexed key t index
indexed-erase key t id index e = rw (tokens_of-erase, e)

pub invalidate-Indexed : (id : Bytes) (c : Cache) → Indexed c → Indexed (invalidate id c)
invalidate-Indexed id c v =
    let lacks = invalidate-Lacks id c v in
    let w = forget_all-Indexed (tokens_of id c.by_account) c v in
    unfold invalidate in
    record {
      by_account = λ t e h.
          indexed-erase e.account.id t id (forget_all (tokens_of id c.by_account) c).by_account
            (lacks t e h)
          ∙ w.by_account t e h;
      by_tenant = w.by_tenant;
    }

pub invalidate_tenant-Lacks :
    (id : Bytes) (c : Cache) → Indexed c → Lacks (is_of_tenant id) (invalidate_tenant id c)
unfolding invalidate_tenant
invalidate_tenant-Lacks id c v t e h =
    let (unlisted, old) = forget_all-kept (tokens_of id c.by_tenant) c t e h in
    elim (Bool-cases (eq_bytes e.account.tenant_id id)) [
      | inl same ↦
          let listed = v.by_tenant t e old in
          let key = ap (λ k. indexed k t c.by_tenant) (eq_bytes→eq e.account.tenant_id id same) in
          let clash = sym unlisted ∙ sym key ∙ listed in cc
      | inr other ↦ other
    ]

invalidate_tenant-Indexed : (id : Bytes) (c : Cache) → Indexed c → Indexed (invalidate_tenant id c)
invalidate_tenant-Indexed id c v =
    let lacks = invalidate_tenant-Lacks id c v in
    let w = forget_all-Indexed (tokens_of id c.by_tenant) c v in
    unfold invalidate_tenant in
    record {
      by_account = w.by_account;
      by_tenant = λ t e h.
          indexed-erase e.account.tenant_id t id (forget_all (tokens_of id c.by_tenant) c).by_tenant
            (lacks t e h)
          ∙ w.by_tenant t e h;
    }

module _ (ttl : ℕ) where
  step-Indexed : (call : Call) (c : Cache) → Indexed c → Indexed (step ttl call c)
  unfolding step
  step-Indexed (stores now token account) c v = store-Indexed ttl now token account c v
  step-Indexed (invalidates id) c v = invalidate-Indexed id c v
  step-Indexed (invalidates_tenant id) c v = invalidate_tenant-Indexed id c v

  pub run-Indexed : (calls : List Call) (c : Cache) → Indexed c → Indexed (run ttl calls c)
  unfolding run
  run-Indexed [] c v = v
  run-Indexed (call ∷ calls) c v = run-Indexed calls (step ttl call c) (step-Indexed call c v)
