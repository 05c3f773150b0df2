-- ===== src/Domain/Attribute/Constraint/Laws.antt =====
-- Domain.Attribute.Constraint.Laws: what lists of constraints accept, and what valid ones give.
use Prim.{tt}
use flexitype.Prelude.{
  ◌≡◌, refl, Bool, true, false, ◌&&◌, List, [], ◌∷◌, ◌++◌, arith, ℕ, ◌+◌, ◌≤◌, if◌then◌else◌,
}
use flexitype.Domain.Errors.{ok, err}
use flexitype.Domain.Values.DataType.{DataType}
use flexitype.Domain.Values.Value.{Platform, Value}
use flexitype.Domain.Attribute.Constraint.{
  Constraint, ConstraintKind, kind, kind_index, eq_kind, has_kind, validate_one, validate_seen,
  validate, check_one, check,
}

-- A list of constraints accepts a value.
abbrev pub accepts : Platform → Value → List Constraint → Bool
accepts p v cs = elim (check p v cs) [ ok u ↦ true | err e ↦ false ]

abbrev pub accepts_one : Platform → Value → Constraint → Bool
accepts_one p v c = elim (check_one p v c) [ ok u ↦ true | err e ↦ false ]

pub accepts-∷ :
    (p : Platform) (v : Value) (c : Constraint) (cs : List Constraint)
    → accepts p v (c ∷ cs) ≡ accepts_one p v c && accepts p v cs
unfolding check
accepts-∷ p v c cs = ground arith

-- Constraints accumulate: two lists accept together what each accepts.
pub accepts-append :
    (p : Platform) (v : Value) (cs ds : List Constraint)
    → accepts p v (cs ++ ds) ≡ accepts p v cs && accepts p v ds
unfolding check
accepts-append p v [] ds = refl
accepts-append p v (c ∷ cs) ds = ground (arith, accepts-append p v cs ds)

-- How many constraints of a kind a list holds.
abbrev pub count_kind : ConstraintKind → List Constraint → ℕ
unfolding eq_kind
count_kind k [] = 0
count_kind k (c ∷ cs) = if eq_kind k (kind c) then count_kind k cs + 1 else count_kind k cs

has_kind_cong :
    (k l : ConstraintKind) (seen : List ConstraintKind)
    → kind_index k ≡ kind_index l
    → has_kind k seen ≡ has_kind l seen
unfolding has_kind
has_kind_cong k l [] h = refl
has_kind_cong k l (m ∷ ms) h = rw (h, has_kind_cong k l ms h) refl

valid_head :
    (p : Platform) (dt : DataType) (seen : List ConstraintKind) (c : Constraint)
    (cs : List Constraint)
    → validate_seen p dt seen (c ∷ cs) ≡ ok tt
    → (has_kind (kind c) seen ≡ false)
      × (validate_one p dt c ≡ ok tt)
      × (validate_seen p dt (kind c ∷ seen) cs ≡ ok tt)
unfolding validate_seen
valid_head p dt seen c cs h = ground arith

count_seen :
    (p : Platform) (dt : DataType) (seen : List ConstraintKind) (cs : List Constraint)
    (k : ConstraintKind)
    → validate_seen p dt seen cs ≡ ok tt
    → (has_kind k seen ≡ true → count_kind k cs ≡ 0) × (count_kind k cs ≤ 1)
unfolding has_kind eq_kind
count_seen p dt seen [] k h = ground arith
count_seen p dt seen (c ∷ cs) k h =
    let (new_kind, valid, rest) = valid_head p dt seen c cs h in
    ground (arith, count_seen p dt (kind c ∷ seen) cs k rest, has_kind_cong k (kind c) seen)

-- Valid constraints are each valid for the type, and no two have the same kind.
pub validate-Distinct :
    (p : Platform) (dt : DataType) (cs : List Constraint) (k : ConstraintKind)
    → validate p dt cs ≡ ok tt
    → count_kind k cs ≤ 1
unfolding validate
validate-Distinct p dt cs k h = (count_seen p dt [] cs k h).1
