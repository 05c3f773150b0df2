-- ===== src/ServiceAccount/Cache/Indexed.antt =====
-- ServiceAccount.Cache.Indexed: both indexes know every token that is cached.
use Prim.{tt}
use flexitype.Prelude.{
  ℕ, ◌+◌, ◌≡◌, refl, sym, ap, ◌∙◌, subst, Bool, true, false, ◌&&◌, ◌||◌, Option, none, some, List,
  [], ◌∷◌, arith, ltb, ◌==◌, if◌then◌else◌, length, Bool-cases, Option-cases, inl, inr, ◌⊎◌,
}
use flexitype.Bytes.{Bytes, eq_bytes, eq_bytes→eq, eq_bytes_refl}
use flexitype.Keyed.{Keyed, get, put, erase, has, get-put, get-erase}
use flexitype.ServiceAccount.Account.{Account}
use flexitype.ServiceAccount.Cache.{
  Entry, TokenSet, Index, Cache, tokens_of, enter, leave, forget_entry, forget, forget_all, expired,
  purge, store,
}

pub has-put {ℓ} :
    {V : Type ℓ} (j k : Bytes) (v : V) (m : Keyed V) → has j (put k v m) ≡ (eq_bytes j k || has j m)
unfolding has
has-put j k v m = ground (arith, get-put j k v m)

has-erase {ℓ} :
    {V : Type ℓ} (j k : Bytes) (m : Keyed V) → eq_bytes j k ≡ false → has j (erase k m) ≡ has j m
unfolding has
has-erase j k m e = ground (arith, get-erase j k m)

tokens_of-put :
    (j k : Bytes) (tokens : TokenSet) (index : Index)
    → tokens_of j (put k tokens index) ≡ (if eq_bytes j k then tokens else tokens_of j index)
unfolding tokens_of
tokens_of-put j k tokens index = ground (arith, get-put j k tokens index)

pub tokens_of-erase :
    (j k : Bytes) (index : Index)
    → tokens_of j (erase k index) ≡ (if eq_bytes j k then [] else tokens_of j index)
unfolding tokens_of
tokens_of-erase j k index = ground (arith, get-erase j k index)

-- Whether the index holds the token under the key.
abbrev pub indexed : Bytes → Bytes → Index → Bool
indexed key token index = has token (tokens_of key index)

indexed-enter :
    (j t key token : Bytes) (index : Index)
    → indexed j t (enter key token index)
      ≡ (eq_bytes j key && eq_bytes t token || indexed j t index)
unfolding enter
indexed-enter j t key token index = rw tokens_of-put (entered (eq_bytes j key) refl)
  where
    held : (b : Bool) → eq_bytes j key ≡ b → b ≡ true → tokens_of j index ≡ tokens_of key index
    held b e h = ap (λ k. tokens_of k index) (eq_bytes→eq j key (e ∙ h))

    entered :
        (b : Bool)
        → eq_bytes j key ≡ b
        → has t (if b then put token tt (tokens_of key index) else tokens_of j index)
          ≡ (b && eq_bytes t token || indexed j t index)
    entered true e =
        has-put t token tt (tokens_of key index)
        ∙ ap (λ m. eq_bytes t token || has t m) (sym (held true e refl))
    entered false e = refl

nil_of_length : {A : Type 0} (xs : List A) → (length xs == 0) ≡ true → xs ≡ []
nil_of_length [] h = refl
nil_of_length (x ∷ xs) h = absurd (ground arith)

-- The set that `leave` stores, or the lack of one.
settled :
    (j key : Bytes) (rest : TokenSet) (index : Index)
    → tokens_of j (if length rest == 0 then erase key index else put key rest index)
      ≡ (if eq_bytes j key then rest else tokens_of j index)
settled j key rest index = elim (Bool-cases (length rest == 0)) [
  | inl z ↦ rw (z, tokens_of-erase, nil_of_length rest z)
  | inr z ↦ rw (z, tokens_of-put)
]

module _ (key : Bytes) (index : Index) where
  leave-none : (token : Bytes) → get key index ≡ none → leave key token index ≡ index
  unfolding leave erase
  leave-none token h = rw (h, leave)

  leave-some :
      (token : Bytes) (tokens : TokenSet)
      → get key index ≡ some tokens
      → leave key token index ≡ (
          if length (erase token tokens) == 0
          then erase key index
          else put key (erase token tokens) index)
  unfolding leave erase
  leave-some token tokens h = rw (h, leave)

  tokens_of-some : (tokens : TokenSet) → get key index ≡ some tokens → tokens_of key index ≡ tokens
  unfolding tokens_of
  tokens_of-some tokens h = rw (h, tokens_of)

  none_listed : (j : Bytes) → eq_bytes j key ≡ true → get key index ≡ none → tokens_of j index ≡ []
  unfolding tokens_of
  none_listed j e h = ap (λ k. tokens_of k index) (eq_bytes→eq j key e) ∙ rw (h, tokens_of)

tokens_of-leave :
    (j key token : Bytes) (index : Index)
    → tokens_of j (leave key token index)
      ≡ (if eq_bytes j key then erase token (tokens_of key index) else tokens_of j index)
tokens_of-leave j key token index = elim (Option-cases (get key index)) [
  | inl absent ↦ rw (leave-none key index token absent) (elim (Bool-cases (eq_bytes j key)) [
    | inl e ↦
        rw
          (
            e,
            none_listed key index j e absent,
            none_listed key index key (eq_bytes_refl key) absent,
          )
          (unfold erase in refl)
    | inr e ↦ rw e
  ])
  | inr (tokens, found) ↦
      rw (leave-some key index token tokens found, tokens_of-some key index tokens found)
        (settled j key (erase token tokens) index)
]

indexed-leave :
    (j t key token : Bytes) (index : Index)
    → eq_bytes t token ≡ false
    → indexed j t index ≡ true
    → indexed j t (leave key token index) ≡ true
indexed-leave j t key token index e h = rw tokens_of-leave (elim (Bool-cases (eq_bytes j key)) [
  | inl same ↦
      rw (same, has-erase t token (tokens_of key index) e)
        (ap (λ k. has t (tokens_of k index)) (sym (eq_bytes→eq j key same)) ∙ h)
  | inr other ↦ rw other h
])

-- Every token that is cached stands in the two indexes, under the account and the tenant that it resolves to.
pub record Indexed (c : Cache) : Type 0 where
  pub by_account :
      (t : Bytes) (e : Entry) → get t c.cache ≡ some e → indexed e.account.id t c.by_account ≡ true
  pub by_tenant :
      (t : Bytes) (e : Entry)
      → get t c.cache ≡ some e
      → indexed e.account.tenant_id t c.by_tenant ≡ true

-- What is left of the cache after a deletion was there, under another token.
pub get-erase-some :
    {V : Type 0} (t token : Bytes) (m : Keyed V) (e : V)
    → get t (erase token m) ≡ some e
    → (eq_bytes t token ≡ false) × (get t m ≡ some e)
get-erase-some t token m e h = ground (arith, get-erase t token m)

forget_entry-Indexed :
    (token : Bytes) (c : Cache) (o : Option Entry) → Indexed c → Indexed (forget_entry token o c)
unfolding forget_entry
forget_entry-Indexed token c none v = v
forget_entry-Indexed token c (some entry) v = record {
  by_account = λ t e h.
      let (other, old) = get-erase-some t token c.cache e h in
      indexed-leave e.account.id t entry.account.id token c.by_account other (v.by_account t e old);
  by_tenant = λ t e h.
      let (other, old) = get-erase-some t token c.cache e h in
      indexed-leave e.account.tenant_id t entry.account.tenant_id token c.by_tenant other
        (v.by_tenant t e old);
}

pub forget_all-Indexed : (tokens : TokenSet) (c : Cache) → Indexed c → Indexed (forget_all tokens c)
unfolding forget_all forget
forget_all-Indexed [] c v = v
forget_all-Indexed ((token, u) ∷ tokens) c v =
    forget_all-Indexed tokens (forget token c) (forget_entry-Indexed token c (get token c.cache) v)

purge-Indexed : (now : ℕ) (c : Cache) → Indexed c → Indexed (purge now c)
unfolding purge
purge-Indexed now c v = elim (Bool-cases (ltb 1024 (length c.cache))) [
  | inl many ↦ rw (many, purge) (forget_all-Indexed (expired now c.cache) c v)
  | inr few ↦ rw (few, purge) v
]

pub stored :
    (t token : Bytes) (m : Keyed Entry) (new e : Entry)
    → get t (put token new m) ≡ some e
    → ((eq_bytes t token ≡ true) × (new ≡ e)) ⊎ (get t m ≡ some e)
stored t token m new e h = elim (Bool-cases (eq_bytes t token)) [
  | inl same ↦ inl (same, ground (arith, get-put t token new m))
  | inr other ↦ inr (ground (arith, get-put t token new m))
]

entered-new :
    (j t token : Bytes) (index : Index)
    → eq_bytes t token ≡ true
    → indexed j t (enter j token index) ≡ true
entered-new j t token index e = rw (indexed-enter, eq_bytes_refl, e)

entered-old :
    (j t key token : Bytes) (index : Index)
    → indexed j t index ≡ true
    → indexed j t (enter key token index) ≡ true
entered-old j t key token index h = ground (arith, indexed-enter j t key token index)

pub store-Indexed :
    (ttl now : ℕ) (token : Bytes) (account : Account) (c : Cache)
    → Indexed c
    → Indexed (store ttl now token account c)
unfolding store
store-Indexed ttl now token account c v =
    let p = purge now c in
    let w = purge-Indexed now c v in
    let new : Entry = record { account = account; expires = now + ttl } in
    record {
      by_account = λ t e h. elim (stored t token p.cache new e h) [
        | inl (same, is_new) ↦
            subst (λ f. indexed f.account.id t (enter account.id token p.by_account) ≡ true) is_new
              (entered-new account.id t token p.by_account same)
        | inr old ↦ entered-old e.account.id t account.id token p.by_account (w.by_account t e old)
      ];
      by_tenant = λ t e h. elim (stored t token p.cache new e h) [
        | inl (same, is_new) ↦
            subst
              (λ f.
                indexed f.account.tenant_id t (enter account.tenant_id token p.by_tenant) ≡ true)
              is_new (entered-new account.tenant_id t token p.by_tenant same)
        | inr old ↦
            entered-old e.account.tenant_id t account.tenant_id token p.by_tenant
              (w.by_tenant t e old)
      ];
    }
