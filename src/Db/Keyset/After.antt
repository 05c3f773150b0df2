-- ===== src/Db/Keyset/After.antt =====
-- Db.Keyset.After: the rows that the condition of pkg/db/pagination.go selects.
use flexitype.Prelude.{
  ◌≡◌, refl, Bool, true, false, ◌&&◌, ◌||◌, List, [], ◌∷◌, ◌++◌, arith, if◌then◌else◌,
}
use flexitype.Bytes.{Bytes}
use flexitype.Db.Keyset.{KeysetColumn, Comparison, equal, above, below, beyond, conjunctions}

-- How a database compares a row's column with a value.
pub record Row : Type 0 where
  pub is_equal : KeysetColumn → Bytes → Bool
  pub is_above : KeysetColumn → Bytes → Bool
  pub is_below : KeysetColumn → Bytes → Bool

unfoldable pub satisfies : Row → Comparison → Bool
satisfies row (equal c v) = row.is_equal c v
satisfies row (above c v) = row.is_above c v
satisfies row (below c v) = row.is_below c v

unfoldable pub all_satisfied : Row → List Comparison → Bool
unfolding satisfies
all_satisfied row [] = true
all_satisfied row (c ∷ cs) = satisfies row c && all_satisfied row cs

unfoldable pub some_satisfied : Row → List (List Comparison) → Bool
unfolding all_satisfied
some_satisfied row [] = false
some_satisfied row (ands ∷ rest) = all_satisfied row ands || some_satisfied row rest

-- The row comes after the values in the order of the columns: the first column in which it is not equal decides.
unfoldable pub comes_after : Row → List KeysetColumn → List Bytes → Bool
comes_after row (c ∷ cols) (v ∷ values) =
    (if c.desc then row.is_below c v else row.is_above c v)
    || row.is_equal c v && comes_after row cols values
comes_after row _ _ = false

all_satisfied-append :
    (row : Row) (xs ys : List Comparison)
    → all_satisfied row (xs ++ ys) ≡ (all_satisfied row xs && all_satisfied row ys)
unfolding all_satisfied
all_satisfied-append row [] ys = refl
all_satisfied-append row (x ∷ xs) ys = ground (arith, all_satisfied-append row xs ys)

conjunctions-behind :
    (row : Row) (before : List Comparison) (cols : List KeysetColumn) (values : List Bytes)
    → some_satisfied row (conjunctions before cols values)
      ≡ (all_satisfied row before && comes_after row cols values)
unfolding some_satisfied conjunctions comes_after all_satisfied satisfies
conjunctions-behind row before [] values = ground arith
conjunctions-behind row before (c ∷ cols) [] = ground arith
conjunctions-behind row before (c ∷ cols) (v ∷ values) = ground (
  arith,
  all_satisfied-append row before (beyond c v ∷ []),
  all_satisfied-append row before (equal c v ∷ []),
  conjunctions-behind row (before ++ (equal c v ∷ [])) cols values,
)

-- A row satisfies one of the conjunctions that are made for a cursor exactly if it comes after the cursor's values in the
-- order of the columns, each ascending or descending.
pub conjunctions-comes_after :
    (row : Row) (cols : List KeysetColumn) (values : List Bytes)
    → some_satisfied row (conjunctions [] cols values) ≡ comes_after row cols values
unfolding all_satisfied
conjunctions-comes_after row cols values = conjunctions-behind row [] cols values
