-- ===== src/Domain/Values/DataType.antt =====
-- Domain.Values.DataType: domain/valueobjects/datatype.go.
use flexitype.Prelude.{ℕ, ◌≡◌, Bool, true, false, arith, ◌==◌}

pub data DataType : Type 0 where
  bool string text integer float decimal date time date_time enum url email json media quantity :
      DataType

-- A number for each type, to compare types by.
unfoldable pub index : DataType → ℕ
index bool = 0
index string = 1
index text = 2
index integer = 3
index float = 4
index decimal = 5
index date = 6
index time = 7
index date_time = 8
index enum = 9
index url = 10
index email = 11
index json = 12
index media = 13
index quantity = 14

unfoldable pub eq_type : DataType → DataType → Bool
unfolding index
eq_type a b = index a == index b

unfoldable pub is_textual : DataType → Bool
is_textual string = true
is_textual text = true
is_textual enum = true
is_textual url = true
is_textual email = true
is_textual _ = false

unfoldable pub is_ordered : DataType → Bool
is_ordered integer = true
is_ordered float = true
is_ordered decimal = true
is_ordered date = true
is_ordered time = true
is_ordered date_time = true
is_ordered quantity = true
is_ordered _ = false

unfoldable pub is_temporal : DataType → Bool
is_temporal date = true
is_temporal time = true
is_temporal date_time = true
is_temporal _ = false

pub eq_type_refl : (a : DataType) → eq_type a a ≡ true
unfolding eq_type
eq_type_refl a = ground arith
