-- ===== src/Domain/Attribute/Computed.antt =====
-- Domain.Attribute.Computed: domain/attribute/computed.go. What it uses of pkg/formula is an argument: the names
-- that a formula refers to, for a formula that parses.
use flexitype.Prelude.{Option, none, some, List, [], if◌then◌else◌}
use flexitype.Bytes.{Bytes}
use flexitype.Domain.Errors.{Result, ok, err, new_validation}
use flexitype.Domain.Names.{is_empty}

-- A kind, a direction or an aggregate that the source does not know is a string of its own.
pub data ComputedKind : Type 0 where
  computed_formula computed_rollup : ComputedKind
  unknown_computed : Bytes → ComputedKind

pub data RollupAggregate : Type 0 where
  rollup_count rollup_sum rollup_min rollup_max : RollupAggregate
  unknown_aggregate : Bytes → RollupAggregate

pub data Direction : Type 0 where
  child parent linked : Direction
  unknown_direction : Bytes → Direction

pub record Rollup : Type 0 where
  pub relationship : Bytes
  pub direction : Direction
  pub aggregate : RollupAggregate
  pub target : Bytes

pub record Computed : Type 0 where
  pub kind : ComputedKind
  pub formula : Bytes
  pub rollup : Option Rollup

abbrev pub Formulas : Type 0
Formulas = Bytes → Option (List Bytes)

formula_refs : Option (List Bytes) → Result (List Bytes)
formula_refs none = err (new_validation "invalid formula")
formula_refs (some refs) = ok refs

-- The aggregates other than `count` need a target.
validate_aggregate : Bytes → RollupAggregate → Result (List Bytes)
validate_aggregate target rollup_count = ok []
validate_aggregate target (unknown_aggregate a) = err (new_validation "unknown rollup aggregate")
validate_aggregate target _ =
    if is_empty target
    then err (new_validation "rollup aggregate requires a target attribute")
    else ok []

validate_direction : Direction → Result (List Bytes) → Result (List Bytes)
validate_direction (unknown_direction d) rest =
    err (new_validation "rollup direction must be child, parent or linked")
validate_direction _ rest = rest

validate_rollup : Option Rollup → Result (List Bytes)
unfolding validate_direction validate_aggregate
validate_rollup none = err (new_validation "computed rollup spec is required")
validate_rollup (some r) =
    if is_empty r.relationship
    then err (new_validation "rollup relationship is required")
    else validate_direction r.direction (validate_aggregate r.target r.aggregate)

-- Computed.Validate.
unfoldable pub validate_computed : Formulas → Computed → Result (List Bytes)
unfolding formula_refs validate_rollup
validate_computed formulas c = elim c.kind [
  | computed_formula ↦
      if is_empty c.formula
      then err (new_validation "computed formula is required")
      else formula_refs (formulas c.formula)
  | computed_rollup ↦ validate_rollup c.rollup
  | unknown_computed k ↦ err (new_validation "unknown computed kind")
]
