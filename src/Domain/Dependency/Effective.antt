-- ===== src/Domain/Dependency/Effective.antt =====
-- Domain.Dependency.Effective: domain/dependency/resolver.go.
pub mod Alike
pub mod Order
pub mod Meaning
pub mod Allowed
use Prim.{tt}
use flexitype.Prelude.{
  ℕ, Bool, true, false, ◌&&◌, ◌||◌, not, Option, none, some, List, [], ◌∷◌, ◌++◌, ◌==◌,
  if◌then◌else◌,
}
use flexitype.Domain.Errors.{Error, Result, ok, err, new_dependency_violation, ◌>>=◌, ◌>>◌}
use flexitype.Domain.Names.{Ulid}
use flexitype.Domain.TypeDef.{is_some}
use flexitype.Domain.Values.Value.{Platform, Value, is_zero, equal}
use flexitype.Domain.Values.Dynamic.{Moment}
use flexitype.Domain.Attribute.Constraint.{Constraint, check, any_equal, none_left}
use flexitype.Domain.Attribute.Definition.{Definition}
use flexitype.Domain.Dependency.Rule.{
  Dependency, Effect, Enforcement, on_write, on_read, Facts, is_archived, matches_any, enforcement,
  is_on_write, demands_value,
}

pub record EffectiveSchema : Type 0 where
  pub required : Bool
  pub allowed_values : List Value
  pub constraints : List Constraint
  pub restricted : Bool
  pub required_by_dependency : Bool
  pub required_enforcement : Enforcement

-- What the loop over the dependencies carries: the three fields that it writes and its three flags.
pub record Progress : Type 0 where
  pub allowed_values : List Value
  pub restricted : Bool
  pub constraints : List Constraint
  pub overridden : Bool
  pub required_by_any : Bool
  pub enforce_on_write : Bool

unfoldable pub intersect : Platform → List Value → List Value → List Value
unfolding any_equal
intersect p [] next = []
intersect p (v ∷ current) next =
    let rest = intersect p current next in if any_equal p v next then v ∷ rest else rest

unfoldable pub override_required : Option Bool → Effect → Progress → Progress
override_required none e s = s
override_required (some b) e s = record s {
  overridden = true;
  required_by_any = s.required_by_any || b;
  enforce_on_write = s.enforce_on_write || demands_value e && is_on_write (enforcement e);
}

unfoldable pub narrow : Platform → List Value → Progress → Progress
unfolding intersect
narrow p allowed s =
    if none_left allowed
    then s
    else if s.restricted
    then record s { allowed_values = intersect p s.allowed_values allowed }
    else record s { allowed_values = allowed; restricted = true }

-- What one matched effect does.
unfoldable pub apply_effect : Platform → Effect → Progress → Progress
unfolding narrow override_required
apply_effect p e s =
    let narrowed = narrow p e.allowed_values s in
    override_required e.required e
      (record narrowed { constraints = narrowed.constraints ++ e.constraints })

-- The dependencies that the loop does not skip.
unfoldable pub applies_to : Ulid → Dependency → Bool
applies_to target d = not (is_archived d) && d.target_id == target

pub step_matched : Platform → Effect → Bool → Progress → Progress
unfolding apply_effect
step_matched p e matched s = if matched then apply_effect p e s else s

-- One turn of the loop.
unfoldable pub step :
    Platform → Moment → Facts → Ulid → (Ulid → List Value) → Dependency → Progress → Result Progress
unfolding matches_any applies_to step_matched
step p t facts target sources d s = if not (applies_to target d) then ok s else do
  matched ← matches_any p t facts d.conditions (sources d.source_id)
  ok (step_matched p d.effect matched s)

unfoldable pub loop :
    Platform
    → Moment
    → Facts
    → Ulid
    → (Ulid → List Value)
    → List Dependency
    → Progress
    → Result Progress
unfolding step
loop p t facts target sources [] s = ok s
loop p t facts target sources (d ∷ ds) s =
    step p t facts target sources d s >>= loop p t facts target sources ds

unfoldable pub start : List Constraint → Progress
start cs = record {
  allowed_values = [];
  restricted = false;
  constraints = cs;
  overridden = false;
  required_by_any = false;
  enforce_on_write = false;
}

-- What follows the loop.
unfoldable pub finish : Bool → Progress → EffectiveSchema
finish required s = record {
  required = if s.overridden then s.required_by_any else required;
  allowed_values = s.allowed_values;
  constraints = s.constraints;
  restricted = s.restricted;
  required_by_dependency = s.overridden && s.required_by_any;
  required_enforcement =
      if s.overridden && s.required_by_any && s.enforce_on_write then on_write else on_read;
}

-- ResolveEffectiveWithContext.
unfoldable pub resolve :
    Platform
    → Moment
    → Facts
    → Definition
    → (Ulid → List Value)
    → List Dependency
    → Result EffectiveSchema
unfolding loop start finish
resolve p t facts target sources ds = do
  s ← loop p t facts target.id sources ds (start target.fields.constraints)
  ok (finish target.fields.required s)

as_violation : Result (Unit {0}) → Result (Unit {0})
as_violation (ok u) = ok u
as_violation (err e) = err (new_dependency_violation e.message)

-- EffectiveSchema.Check.
unfoldable pub check_schema : Platform → EffectiveSchema → Value → Result (Unit {0})
unfolding any_equal as_violation check
check_schema p s v =
    if is_zero v
    then if s.required
      then err (new_dependency_violation "value is required by an attribute dependency")
      else ok tt
    else if s.restricted && not (any_equal p v s.allowed_values)
    then err
        (new_dependency_violation "value is not allowed by the entity's attribute dependencies")
    else as_violation (check p v s.constraints)
