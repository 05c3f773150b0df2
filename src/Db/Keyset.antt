-- ===== src/Db/Keyset.antt =====
-- Db.Keyset: the condition of pkg/db/pagination.go that selects the rows after a cursor. What encoding/base64 and
-- encoding/json, time and strconv read of a text are arguments, and so is the kind of a column's cast.
pub mod After
use flexitype.Prelude.{
  Bool, true, false, not, Option, none, some, List, [], ◌∷◌, ◌++◌, ◌==◌, if◌then◌else◌, length,
}
use flexitype.Bytes.{Bytes, codes}
use flexitype.Domain.Errors.{Result, ok, err, new_validation, ◌>>=◌}
use flexitype.Domain.Names.{is_empty}

pub data CastKind : Type 0 where
  cast_text cast_time cast_number : CastKind

-- KeysetColumn.
pub record KeysetColumn : Type 0 where
  pub expr : Bytes
  pub desc : Bool
  pub cast : Bytes

-- The kind of a column's cast, a decoded cursor, and whether a text reads as a time or as a number.
pub record Readers : Type 0 where
  pub kind : KeysetColumn → CastKind
  pub decode_keyset : Bytes → Option (List Bytes)
  pub is_time : Bytes → Bool
  pub is_number : Bytes → Bool

unfoldable pub fits_kind : Readers → CastKind → Bytes → Bool
fits_kind readers cast_text v = true
fits_kind readers cast_time v = readers.is_time v
fits_kind readers cast_number v = readers.is_number v

-- As many values as columns, each of its column's kind.
unfoldable pub validate_values : Readers → List KeysetColumn → List Bytes → Bool
unfolding fits_kind
validate_values readers [] [] = true
validate_values readers (c ∷ cols) (v ∷ values) =
    let rest = validate_values readers cols values in
    if fits_kind readers (readers.kind c) v then rest else false
validate_values readers _ _ = false

unfoldable pub checked : Readers → List KeysetColumn → Option (List Bytes) → Result (List Bytes)
unfolding validate_values
checked readers cols none = err (new_validation "invalid cursor")
checked readers cols (some values) =
    if validate_values readers cols values then ok values else err (new_validation "invalid cursor")

-- ValidateKeyset.
unfoldable pub validate_keyset : Readers → List KeysetColumn → Bytes → Result (List Bytes)
unfolding checked
validate_keyset readers cols cursor = checked readers cols (readers.decode_keyset cursor)

-- One comparison of a column with a bound value.
pub data Comparison : Type 0 where
  equal above below : KeysetColumn → Bytes → Comparison

abbrev pub beyond : KeysetColumn → Bytes → Comparison
beyond c v = if c.desc then below c v else above c v

-- One conjunction for each column: the columns before it are equal, and it lies beyond. `before` are the equalities of
-- the columns passed.
unfoldable pub conjunctions :
    List Comparison → List KeysetColumn → List Bytes → List (List Comparison)
conjunctions before (c ∷ cols) (v ∷ values) =
    (before ++ (beyond c v ∷ [])) ∷ conjunctions (before ++ (equal c v ∷ [])) cols values
conjunctions before _ _ = []

-- What a comparison binds, and its text.
unfoldable pub argument : Comparison → Bytes
argument (equal c v) = v
argument (above c v) = v
argument (below c v) = v

unfoldable pub text_of : Comparison → Bytes
text_of (equal c v) = c.expr ++ codes " = ?" ++ c.cast
text_of (above c v) = c.expr ++ codes " > ?" ++ c.cast
text_of (below c v) = c.expr ++ codes " < ?" ++ c.cast

unfoldable pub joined : Bytes → List Bytes → Bytes
joined separator [] = []
joined separator (s ∷ []) = s
joined separator (s ∷ t ∷ rest) = s ++ separator ++ joined separator (t ∷ rest)

unfoldable pub texts_of : List Comparison → List Bytes
unfolding text_of
texts_of [] = []
texts_of (c ∷ cs) = text_of c ∷ texts_of cs

unfoldable pub ors_of : List (List Comparison) → List Bytes
unfolding texts_of joined
ors_of [] = []
ors_of (ands ∷ rest) =
    (codes "(" ++ joined (codes " AND ") (texts_of ands) ++ codes ")") ∷ ors_of rest

unfoldable pub args_of : List (List Comparison) → List Bytes
unfolding argument
args_of [] = []
args_of ([] ∷ rest) = args_of rest
args_of ((c ∷ cs) ∷ rest) = argument c ∷ args_of (cs ∷ rest)

-- KeysetPredicate: the text with its placeholders, and what they bind.
unfoldable pub keyset_predicate : Readers → List KeysetColumn → Bytes → Result (Bytes × List Bytes)
unfolding validate_keyset conjunctions ors_of args_of joined
keyset_predicate readers cols cursor = if is_empty cursor then ok ([], []) else do
  values ← validate_keyset readers cols cursor
  ok (
    codes "(" ++ joined (codes " OR ") (ors_of (conjunctions [] cols values)) ++ codes ")",
    args_of (conjunctions [] cols values),
  )
