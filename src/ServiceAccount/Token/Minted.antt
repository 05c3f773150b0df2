-- ===== src/ServiceAccount/Token/Minted.antt =====
-- ServiceAccount.Token.Minted: the tokens that split are the ones that were minted, and who is let in.
use Prim.{tt}
use flexitype.Prelude.{
  ℕ, ◌≡◌, subst, refl, sym, ap, ◌∙◌, ◌⊎◌, List, ◌↔◌, false, Option, none, some, [], ◌∷◌, ◌++◌,
  arith, ◌==◌, ==_iff, All, Bool-cases, Option-cases, inl, inr,
}
use flexitype.Bytes.{Bytes, eq_bytes, eq_bytes→eq, eq_bytes_refl}
use flexitype.Domain.Errors.{Result, ok, err, ◌>>=◌}
use flexitype.Domain.Names.{is_empty}
use flexitype.Keyed.{Keyed, get, put, get-put}
use flexitype.ServiceAccount.Account.{Account}
use flexitype.ServiceAccount.Token.{
  token_prefix, mint_token, cut_prefix, before_cut, cut, split_rest, split_after, split_token,
  verify_secret, verified, authenticate, fill, new_store,
}

-- The bytes hold no separator.
abbrev pub Lacks : ℕ → Bytes → Type 0
Lacks sep = All (λ c. (c == sep) ≡ false)

-- An id and a secret as the service makes them.
abbrev pub IsPair : Bytes → Bytes → Type 0
IsPair id secret = Lacks b'_' id × (is_empty id ≡ false) × (is_empty secret ≡ false)

cut-append :
    (sep : ℕ) (before after : Bytes)
    → Lacks sep before
    → cut sep (before ++ (sep ∷ after)) ≡ some (before, after)
unfolding cut
cut-append sep [] after h = ground arith
cut-append sep (c ∷ cs) after (now, later) = rw (now, cut-append sep cs after later)

-- What a cut is of `s`.
abbrev IsCut : ℕ → Bytes → Bytes × Bytes → Type 0
IsCut sep s p = (s ≡ p.0 ++ (sep ∷ p.1)) × Lacks sep p.0

cut-IsCut : (sep : ℕ) (s : Bytes) (p : Bytes × Bytes) → cut sep s ≡ some p → IsCut sep s p
cut-IsCut sep [] p h = unfold cut in cc
cut-IsCut sep (c ∷ cs) p h = elim (Bool-cases (c == sep)) [
  | inl found ↦
      let e : ([], cs) ≡ p = unfold cut in ground arith in
      subst (IsCut sep (c ∷ cs)) e (ap (λ d. d ∷ cs) ((==_iff c sep).0 found), tt)
  | inr other ↦ elim (Option-cases (cut sep cs)) [
    | inl absent ↦
        let e : before_cut c (cut sep cs) ≡ some p = unfold cut in ground arith in
        absurd (nothing absent e)
    | inr (q, found) ↦
        let e : (c ∷ q.0, q.1) ≡ p = unfold cut before_cut in ground arith in
        let (same, lacks) = cut-IsCut sep cs q found in
        subst (IsCut sep (c ∷ cs)) e (ap (λ ds. c ∷ ds) same, (other, lacks))
  ]
]
  where
    nothing : cut sep cs ≡ none → before_cut c (cut sep cs) ≡ some p → ⊥
    nothing absent e = let n = ap (before_cut c) absent in unfold before_cut in cc

cut_prefix-append : (p s : Bytes) → cut_prefix p (p ++ s) ≡ some s
unfolding cut_prefix
cut_prefix-append [] s = refl
cut_prefix-append (c ∷ cs) s = ground (arith, cut_prefix-append cs s)

cut_prefix-some : (p s rest : Bytes) → cut_prefix p s ≡ some rest → s ≡ p ++ rest
unfolding cut_prefix
cut_prefix-some [] s rest h = cc
cut_prefix-some (c ∷ cs) [] rest h = cc
cut_prefix-some (c ∷ cs) (d ∷ ds) rest h = ground (arith, cut_prefix-some cs ds rest)

-- Splitting a minted token gives back its id and its secret.
pub split_token-mint_token :
    (id secret : Bytes) → IsPair id secret → split_token (mint_token id secret) ≡ ok (id, secret)
unfolding split_token mint_token cut_prefix split_after split_rest
split_token-mint_token id secret (lacks, has_id, has_secret) =
    rw (cut-append b'_' id secret lacks, has_id, has_secret)

split_rest-some :
    (o : Option (Bytes × Bytes)) (id secret : Bytes)
    → split_rest o ≡ ok (id, secret)
    → (o ≡ some (id, secret)) × (is_empty id ≡ false) × (is_empty secret ≡ false)
unfolding split_rest
split_rest-some none id secret h = cc
split_rest-some (some (i, s)) id secret h = ground arith

-- A token that splits was minted from its parts.
pub mint_token-split_token :
    (token id secret : Bytes)
    → split_token token ≡ ok (id, secret)
    → (token ≡ mint_token id secret) × IsPair id secret
unfolding mint_token
mint_token-split_token token id secret h = elim (Option-cases (cut_prefix token_prefix token)) [
  | inl absent ↦ let e = ap split_after absent in unfold split_token split_after in cc
  | inr (rest, found) ↦
      let e : split_rest (cut b'_' rest) ≡ ok (id, secret) = unfold split_token split_after in cc in
      let (whole, has_id, has_secret) = split_rest-some (cut b'_' rest) id secret e in
      let (same, lacks) = cut-IsCut b'_' rest (id, secret) whole in
      let start = cut_prefix-some token_prefix token rest found in
      (start ∙ ap (λ r. token_prefix ++ r) same, (lacks, has_id, has_secret))
]

-- The account is in the list, and no later one has its id.
abbrev pub IsHeld : List Account → Account → Type 0
IsHeld accounts a =
    (before : List Account) × (later : List Account) × (accounts ≡ before ++ (a ∷ later))
    × All (λ b. eq_bytes a.id b.id ≡ false) later

-- A filled map answers with what it held before, unless an account has the id.
get-fill_other :
    (id : Bytes) (accounts : List Account) (m : Keyed Account)
    → All (λ b. eq_bytes id b.id ≡ false) accounts
    → get id (fill accounts m) ≡ get id m
unfolding fill
get-fill_other id [] m h = refl
get-fill_other id (b ∷ rest) m (h, hs) =
    get-fill_other id rest (put b.id b m) hs ∙ get-put id b.id b m ∙ rw h refl

get-fill-IsHeld :
    (a : Account) (before later : List Account) (m : Keyed Account)
    → All (λ b. eq_bytes a.id b.id ≡ false) later
    → get a.id (fill (before ++ (a ∷ later)) m) ≡ some a
unfolding fill
get-fill-IsHeld a [] later m h =
    get-fill_other a.id later (put a.id a m) h
    ∙ get-put a.id a.id a m
    ∙ rw (eq_bytes_refl a.id) refl
get-fill-IsHeld a (b ∷ before) later m h = get-fill-IsHeld a before later (put b.id b m) h

-- What a filled map answers is held, or was there before and is shadowed by no account.
fill-IsHeld :
    (id : Bytes) (accounts : List Account) (m : Keyed Account) (a : Account)
    → get id (fill accounts m) ≡ some a
    → ((a.id ≡ id) × IsHeld accounts a)
      ⊎ ((get id m ≡ some a) × All (λ b. eq_bytes id b.id ≡ false) accounts)
unfolding fill
fill-IsHeld id [] m a h = inr (h, tt)
fill-IsHeld id (b ∷ rest) m a h = elim (fill-IsHeld id rest (put b.id b m) a h) [
  | inl (same, (before, later, e, shadow)) ↦
      inl (same, (b ∷ before, later, ap (λ r. b ∷ r) e, shadow))
  | inr (found, shadow) ↦ elim (Bool-cases (eq_bytes id b.id)) [
    | inl k ↦
        let own : b ≡ a = let p = get-put id b.id b m in ground arith in
        let key = eq_bytes→eq id b.id k in
        let named : a.id ≡ id = sym (key ∙ ap (λ x. x.id) own) in
        inl (
          named,
          (
            [],
            rest,
            ap (λ x. x ∷ rest) own,
            subst (λ n. All (λ c. eq_bytes n c.id ≡ false) rest) (sym named) shadow,
          ),
        )
    | inr k ↦ inr (let p = get-put id b.id b m in ground arith, (k, shadow))
  ]
]

get-new_store_iff :
    (id : Bytes) (accounts : List Account) (a : Account)
    → (get id (new_store accounts) ≡ some a) ↔ ((a.id ≡ id) × IsHeld accounts a)
unfolding new_store get
get-new_store_iff id accounts a = (
  λ h. elim (fill-IsHeld id accounts [] a h) [
    | inl held ↦ held
    | inr (absent, shadow) ↦ absurd (cc)
  ],
  λ (named, (before, later, e, shadow)).
      subst (λ n. get n (fill accounts []) ≡ some a) named
        (rw e (get-fill-IsHeld a before later [] shadow)),
)

module _ (hash_secret : Bytes → Bytes) (accounts : List Account) where
  -- The token was minted from the id of an account of the list and a secret whose hash the account has.
  abbrev pub Opens : Bytes → Account → Type 0
  Opens token account =
      (secret : Bytes) × (token ≡ mint_token account.id secret)
      × IsPair account.id secret
      × IsHeld accounts account
      × (hash_secret secret ≡ account.secret_hash)

  verified-ok :
      (secret : Bytes) (o : Option Account) (account : Account)
      → verified hash_secret secret o ≡ ok account
      → (o ≡ some account) × (hash_secret secret ≡ account.secret_hash)
  unfolding verified verify_secret
  verified-ok secret none account h = cc
  verified-ok secret (some a) account h =
      elim (Bool-cases (eq_bytes (hash_secret secret) a.secret_hash)) [
        | inl same ↦
            let e : a ≡ account = ground arith in
            (
              ap some e,
              eq_bytes→eq (hash_secret secret) a.secret_hash same ∙ ap (λ b. b.secret_hash) e,
            )
        | inr other ↦ absurd (ground arith)
      ]

  split-ok :
      (r : Result (Bytes × Bytes)) (account : Account)
      → (r >>= λ (id, secret). verified hash_secret secret (get id (new_store accounts)))
        ≡ ok account
      → (p : Bytes × Bytes) × (r ≡ ok p)
        × (verified hash_secret p.1 (get p.0 (new_store accounts)) ≡ ok account)
  split-ok (err e) account h = cc
  split-ok (ok p) account h = (p, refl, h)

  opened :
      (token : Bytes) (account : Account)
      → authenticate hash_secret (new_store accounts) token ≡ ok account
      → Opens token account
  opened token account h =
      let (p, split, check) = split-ok (split_token token) account (unfold authenticate in h) in
      let (minted, pair) = mint_token-split_token token p.0 p.1 split in
      let (found, hashed) = verified-ok p.1 (get p.0 (new_store accounts)) account check in
      let (named, held) = (get-new_store_iff p.0 accounts account).0 found in
      (
        p.1,
        minted ∙ ap (λ n. mint_token n p.1) (sym named),
        subst (λ n. IsPair n p.1) (sym named) pair,
        held,
        hashed,
      )

  opening :
      (token : Bytes) (account : Account)
      → Opens token account
      → authenticate hash_secret (new_store accounts) token ≡ ok account
  unfolding authenticate verified verify_secret
  opening token account (secret, minted, pair, held, hashed) =
      let found = (get-new_store_iff account.id accounts account).1 (refl, held) in
      rw (minted, split_token-mint_token account.id secret pair, found, hashed, eq_bytes_refl)

  -- A store made of a list of accounts lets a token in, as an account, exactly if the account is the last of the list with
  -- its id, and the token was minted from that id, not empty and without an underscore, and a secret, not empty, whose hash
  -- is the account's.
  pub authenticate_iff :
      (token : Bytes) (account : Account)
      → (authenticate hash_secret (new_store accounts) token ≡ ok account) ↔ Opens token account
  authenticate_iff token account = (opened token account, opening token account)
