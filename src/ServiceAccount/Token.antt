-- ===== src/ServiceAccount/Token.antt =====
-- ServiceAccount.Token: the bearer tokens of pkg/serviceaccount/serviceaccount.go and the store that checks them. The hash
-- of a secret, in hexadecimal, is an argument.
pub mod Minted
use Prim.{tt}
use flexitype.Prelude.{
  ℕ, ◌≡◌, refl, sym, ap, ◌∙◌, Bool, true, false, ◌&&◌, ◌||◌, not, Option, none, some, List, [], ◌∷◌,
  ◌++◌, arith, ◌==◌, if◌then◌else◌,
}
use flexitype.Bytes.{Bytes, codes, eq_bytes, eq_bytes→eq, eq_bytes_refl}
use flexitype.Domain.Errors.{Result, ok, err, ◌>>=◌, ◌>>◌, plain_error}
use flexitype.Domain.Names.{is_empty}
use flexitype.Keyed.{Keyed, get, put}
use flexitype.ServiceAccount.Account.{Account}

abbrev pub token_prefix : Bytes
token_prefix = codes "ft_"

unfoldable pub mint_token : Bytes → Bytes → Bytes
mint_token id secret = token_prefix ++ (id ++ (b'_' ∷ secret))

-- strings.CutPrefix.
unfoldable pub cut_prefix : Bytes → Bytes → Option Bytes
cut_prefix [] s = some s
cut_prefix (c ∷ cs) [] = none
cut_prefix (c ∷ cs) (d ∷ ds) = if c == d then cut_prefix cs ds else none

unfoldable pub before_cut : ℕ → Option (Bytes × Bytes) → Option (Bytes × Bytes)
before_cut c none = none
before_cut c (some (before, after)) = some (c ∷ before, after)

-- strings.Cut at one byte.
unfoldable pub cut : ℕ → Bytes → Option (Bytes × Bytes)
unfolding before_cut
cut sep [] = none
cut sep (c ∷ cs) = if c == sep then some ([], cs) else before_cut c (cut sep cs)

unfoldable pub split_rest : Option (Bytes × Bytes) → Result (Bytes × Bytes)
split_rest none = err (plain_error "malformed token")
split_rest (some (id, secret)) =
    if is_empty id || is_empty secret then err (plain_error "malformed token") else ok (id, secret)

unfoldable pub split_after : Option Bytes → Result (Bytes × Bytes)
unfolding split_rest cut
split_after none = err (plain_error "malformed token")
split_after (some rest) = split_rest (cut b'_' rest)

unfoldable pub split_token : Bytes → Result (Bytes × Bytes)
unfolding split_after cut_prefix
split_token token = split_after (cut_prefix token_prefix token)

unfoldable pub fill : List Account → Keyed Account → Keyed Account
unfolding put
fill [] m = m
fill (a ∷ rest) m = fill rest (put a.id a m)

-- NewStore: the last account of an id counts.
unfoldable pub new_store : List Account → Keyed Account
unfolding fill
new_store accounts = fill accounts []

module _ (hash_secret : Bytes → Bytes) where
  unfoldable pub verify_secret : Bytes → Bytes → Result (Unit {0})
  unfolding eq_bytes
  verify_secret secret stored =
      if eq_bytes (hash_secret secret) stored
      then ok tt
      else err (plain_error "invalid credentials")

  unfoldable pub verified : Bytes → Option Account → Result Account
  unfolding verify_secret
  verified secret none = err (plain_error "unknown service account")
  verified secret (some account) = verify_secret secret account.secret_hash >> ok account

  -- Store.Authenticate.
  unfoldable pub authenticate : Keyed Account → Bytes → Result Account
  unfolding verified get split_token
  authenticate accounts token =
      split_token token >>= λ (id, secret). verified secret (get id accounts)
