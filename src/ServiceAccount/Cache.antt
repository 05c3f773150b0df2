-- ===== src/ServiceAccount/Cache.antt =====
-- ServiceAccount.Cache: pkg/serviceaccount/cache.go. A locked section is one function on the cache; an authentication
-- that misses has two, with the wrapped authenticator asked in between. A cache is built with a positive
-- time to live, and an instant is a number.
pub mod Indexed
pub mod Evicted
pub mod Histories
use Prim.{tt}
use flexitype.Prelude.{
  ℕ, ◌+◌, Bool, true, false, not, Option, none, some, List, [], ◌∷◌, ltb, ◌==◌, if◌then◌else◌,
  length,
}
use flexitype.Bytes.{Bytes}
use flexitype.Domain.Errors.{Result, ok, err}
use flexitype.Keyed.{Keyed, get, put, erase}
use flexitype.ServiceAccount.Account.{Account}

pub record Entry : Type 0 where
  pub account : Account
  pub expires : ℕ

-- A set of tokens for each key; a map to struct{} is a set.
abbrev pub TokenSet : Type 0
TokenSet = Keyed (Unit {0})

abbrev pub Index : Type 0
Index = Keyed TokenSet

pub record Cache : Type 0 where
  pub cache : Keyed Entry
  pub by_account : Index
  pub by_tenant : Index

unfoldable pub tokens_of : Bytes → Index → TokenSet
unfolding get
tokens_of key index = elim (get key index) [ none ↦ [] | some tokens ↦ tokens ]

-- index[key][token] = struct{}{}, over a new set where there is none.
unfoldable pub enter : Bytes → Bytes → Index → Index
unfolding tokens_of put
enter key token index = put key (put token tt (tokens_of key index)) index

-- A set that runs empty goes.
unfoldable pub leave : Bytes → Bytes → Index → Index
unfolding get put erase
leave key token index = elim (get key index) [
  | none ↦ index
  | some tokens ↦
      let rest = erase token tokens in
      if length rest == 0 then erase key index else put key rest index
]

unfoldable pub forget_entry : Bytes → Option Entry → Cache → Cache
unfolding erase leave
forget_entry token none c = c
forget_entry token (some entry) c = record {
  cache = erase token c.cache;
  by_account = leave entry.account.id token c.by_account;
  by_tenant = leave entry.account.tenant_id token c.by_tenant;
}

unfoldable pub forget : Bytes → Cache → Cache
unfolding forget_entry get
forget token c = forget_entry token (get token c.cache) c

-- `for token := range tokens { c.forget(token) }`.
unfoldable pub forget_all : TokenSet → Cache → Cache
unfolding forget
forget_all [] c = c
forget_all ((token, _) ∷ tokens) c = forget_all tokens (forget token c)

unfoldable pub invalidate : Bytes → Cache → Cache
unfolding forget_all tokens_of erase
invalidate account c =
    let c' = forget_all (tokens_of account c.by_account) c in
    record c' { by_account = erase account c'.by_account }

unfoldable pub invalidate_tenant : Bytes → Cache → Cache
unfolding forget_all tokens_of erase
invalidate_tenant tenant c =
    let c' = forget_all (tokens_of tenant c.by_tenant) c in
    record c' { by_tenant = erase tenant c'.by_tenant }

unfoldable pub expired : ℕ → Keyed Entry → TokenSet
expired now [] = []
expired now ((token, entry) ∷ m) =
    let rest = expired now m in if not (ltb now entry.expires) then (token, tt) ∷ rest else rest

-- The expired entries go where there are many entries.
unfoldable pub purge : ℕ → Cache → Cache
unfolding expired forget_all
purge now c = if ltb 1024 (length c.cache) then forget_all (expired now c.cache) c else c

-- The second locked section: the account of a token is kept.
unfoldable pub store : ℕ → ℕ → Bytes → Account → Cache → Cache
unfolding purge enter put
store ttl now token account c =
    let c' = purge now c in
    record {
      cache = put token (record { account = account; expires = now + ttl }) c'.cache;
      by_account = enter account.id token c'.by_account;
      by_tenant = enter account.tenant_id token c'.by_tenant;
    }

-- An entry that has not expired answers.
unfoldable pub answer : ℕ → Option Entry → Option Account
answer now none = none
answer now (some entry) = if ltb now entry.expires then some entry.account else none

-- The first locked section.
unfoldable pub hit : ℕ → Bytes → Cache → Option Account
unfolding get answer
hit now token c = answer now (get token c.cache)

unfoldable pub keep : ℕ → ℕ → Bytes → Result Account → Cache → Result Account × Cache
unfolding store
keep ttl now token (err e) c = (err e, c)
keep ttl now token (ok account) c = (ok account, store ttl now token account c)

-- AuthenticateCtx where nobody else holds the lock meanwhile; `inner` is the answer of the wrapped authenticator.
unfoldable pub authenticate : ℕ → ℕ → Bytes → Result Account → Cache → Result Account × Cache
unfolding hit keep
authenticate ttl now token inner c = elim (hit now token c) [
  | some account ↦ (ok account, c)
  | none ↦ keep ttl now token inner c
]

unfoldable pub empty : Cache
empty = record { cache = []; by_account = []; by_tenant = [] }

-- What the locked sections do to the cache: the end of an authentication that missed, and the two evictions. An
-- authentication that hits changes nothing.
pub data Call : Type 0 where
  stores : ℕ → Bytes → Account → Call
  invalidates invalidates_tenant : Bytes → Call

unfoldable pub step : ℕ → Call → Cache → Cache
unfolding store invalidate invalidate_tenant
step ttl (stores now token account) c = store ttl now token account c
step ttl (invalidates account) c = invalidate account c
step ttl (invalidates_tenant tenant) c = invalidate_tenant tenant c

unfoldable pub run : ℕ → List Call → Cache → Cache
unfolding step
run ttl [] c = c
run ttl (call ∷ calls) c = run ttl calls (step ttl call c)
