-- ===== src/Db/Pagination.antt =====
-- Db.Pagination: the keyset pages of pkg/db/pagination.go. Decoding a cursor, which is base64 and JSON, is an argument.
pub mod Sweep
use flexitype.Prelude.{
  ℕ, zero, suc, ◌+◌, Bool, true, false, ◌&&◌, not, Option, none, some, List, [], ◌∷◌, ◌++◌, ltb,
  if◌then◌else◌, length,
}
use flexitype.Prelude.Int.{ℤ, pos, lt_ℤ, pos_part}
use flexitype.Bytes.{Bytes}
use flexitype.Domain.Errors.{Result, ok, err, plain_error, ◌>>=◌}
use flexitype.Domain.Names.{is_empty}

abbrev pub default_page_size : ℕ
default_page_size = 20

abbrev pub max_page_size : ℕ
max_page_size = 200

-- A pointer is none where it is nil.
pub record PageArgs : Type 0 where
  pub limit : Option ℤ
  pub cursor : Option Bytes
  pub want_total : Bool

pub record Page : Type 0 where
  pub limit : ℕ
  pub cursor : Bytes
  pub want_total : Bool
  pub stable : Bool

unfoldable pub resolve_limit : Option ℤ → Result ℕ
resolve_limit none = ok default_page_size
resolve_limit (some n) =
    if lt_ℤ n (pos 1)
    then err (plain_error "limit must be a positive integer")
    else ok (if ltb max_page_size (pos_part n) then max_page_size else pos_part n)

unfoldable pub resolve_cursor : (Bytes → Bool) → Option Bytes → Result Bytes
resolve_cursor decodes none = ok []
resolve_cursor decodes (some cursor) =
    if is_empty cursor
    then ok []
    else if not (decodes cursor)
    then err (plain_error "invalid cursor")
    else ok cursor

-- PageArgs.Resolve.
unfoldable pub resolve : (Bytes → Bool) → PageArgs → Result Page
unfolding resolve_limit resolve_cursor
resolve decodes a = do
  limit ← resolve_limit a.limit
  cursor ← resolve_cursor decodes a.cursor
  ok (record { limit = limit; cursor = cursor; want_total = a.want_total; stable = false })

-- Page.FetchLimit.
unfoldable pub fetch_limit : Page → ℕ
fetch_limit p = suc p.limit

pub record PageInfo : Type 0 where
  pub has_next_page : Bool
  pub has_previous_page : Bool
  pub next_cursor : Option Bytes
  pub total_count : Option ℕ

-- KeysetTotal.
unfoldable pub keyset_total : Page → ℕ → Option ℕ
keyset_total p count = if p.want_total then some count else none

module _ {ℓ} {T : Type ℓ} where
  -- items[:n].
  unfoldable pub take : ℕ → List T → List T
  take zero xs = []
  take (suc n) [] = []
  take (suc n) (x ∷ xs) = x ∷ take n xs

  -- items[len(items)-1], if there is one.
  unfoldable pub last : List T → Option T
  last [] = none
  last (x ∷ []) = some x
  last (x ∷ y ∷ ys) = last (y ∷ ys)

  unfoldable pub cursor_after : (T → Bytes) → Option T → Option Bytes
  cursor_after cursor_of none = none
  cursor_after cursor_of (some x) = some (cursor_of x)

  -- KeysetPage.
  unfoldable pub keyset_page : Page → List T → Option ℕ → (T → Bytes) → List T × PageInfo
  unfolding take last cursor_after
  keyset_page page items total cursor_of =
      let has_next = ltb page.limit (length items) in
      let kept = if has_next then take page.limit items else items in
      (
        kept,
        record {
          has_next_page = has_next;
          has_previous_page = not (is_empty page.cursor);
          next_cursor = if has_next then cursor_after cursor_of (last kept) else none;
          total_count = total;
        },
      )
