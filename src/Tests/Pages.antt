-- ===== src/Tests/Pages.antt =====
-- Tests.Pages: three rows in pages of two.
use flexitype.Prelude.{
  ℕ, suc, ◌≡◌, refl, true, false, not, none, some, List, [], ◌∷◌, ◌++◌, ◌==◌, if◌then◌else◌, length,
  arith,
}
use flexitype.Prelude.Int.{pos}
use flexitype.Bytes.{Bytes, codes}
use flexitype.Domain.Errors.{ok}
use flexitype.Db.Pagination.{resolve}
use flexitype.Db.Keyset.{KeysetColumn, Readers, cast_text, keyset_predicate, conjunctions}
use flexitype.Db.Keyset.After.{Row, some_satisfied, comes_after, conjunctions-comes_after}
use flexitype.Db.Pagination.Sweep.{sweep, sweep-all}

abbrev three : List ℕ
three = 1 ∷ 2 ∷ 3 ∷ []

abbrev row_cursor : ℕ → Bytes
row_cursor x = x ∷ []

abbrev rows_after : Bytes → List ℕ
rows_after [] = three
rows_after (c ∷ cs) = if c == 1 then 2 ∷ 3 ∷ [] else if c == 2 then 3 ∷ [] else []

rows_after-row_cursor :
    (xs : List ℕ) (x : ℕ) (ys : List ℕ) → three ≡ xs ++ (x ∷ ys) → rows_after (row_cursor x) ≡ ys
rows_after-row_cursor [] x ys e = ground arith
rows_after-row_cursor (a ∷ []) x ys e = ground arith
rows_after-row_cursor (a ∷ b ∷ []) x ys e = ground arith
rows_after-row_cursor (a ∷ b ∷ c ∷ []) x ys e = ground arith
rows_after-row_cursor (a ∷ b ∷ c ∷ d ∷ xs) x ys e = ground arith

-- A limit above the maximum is clamped.
resolve-clamped :
    resolve (λ c. true) (record { limit = some (pos 500); cursor = none; want_total = false })
    ≡ ok (record { limit = 200; cursor = []; want_total = false; stable = false })
unfolding resolve
resolve-clamped = refl

sweep-all_example : sweep rows_after row_cursor 2 (suc (length three)) [] ≡ three
sweep-all_example = sweep-all three rows_after row_cursor refl rows_after-row_cursor 1

-- Newest first, then by the identifier.
abbrev newest : List KeysetColumn
newest =
    record { expr = codes "at"; desc = true; cast = codes "::timestamptz" }
    ∷ record { expr = codes "id"; desc = false; cast = [] }
    ∷ []

abbrev plain_readers : Readers
plain_readers = record {
  kind = λ c. cast_text;
  decode_keyset = λ c. some (codes "t" ∷ codes "b" ∷ []);
  is_time = λ v. true;
  is_number = λ v. true;
}

keyset_predicate-newest :
    keyset_predicate plain_readers newest (codes "x")
    ≡ ok (
      codes "((at < ?::timestamptz) OR (at = ?::timestamptz AND id > ?))",
      codes "t" ∷ codes "t" ∷ codes "b" ∷ [],
    )
unfolding keyset_predicate
keyset_predicate-newest = refl

-- A row of the same time with a later identifier.
abbrev same_time : Row
same_time = record {
  is_equal = λ c v. c.desc;
  is_above = λ c v. not c.desc;
  is_below = λ c v. false;
}

conjunctions-comes_after_example :
    some_satisfied same_time (conjunctions [] newest (codes "t" ∷ codes "b" ∷ []))
    ≡ comes_after same_time newest (codes "t" ∷ codes "b" ∷ [])
conjunctions-comes_after_example =
    conjunctions-comes_after same_time newest (codes "t" ∷ codes "b" ∷ [])
