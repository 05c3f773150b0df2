-- ===== src/Formula/Eval.antt =====
-- Formula.Eval: the two evaluators of pkg/formula/formula.go. The arithmetic of float64 is an argument, on bits. A map
-- of inputs gives the empty list for a name that it lacks, as an index of the map does.
pub mod Exact
pub mod Needs
pub mod Defined
use mathlib.Core.Option
use flexitype.Prelude.{
  ℕ, zero, suc, ◌+◌, Bool, true, false, ◌&&◌, ◌||◌, Option, none, some, List, [], ◌∷◌, ◌==◌,
  if◌then◌else◌, length,
}
use flexitype.Bytes.{Bytes}
use flexitype.Domain.Values.Float.{float_lt, float_eq}
use flexitype.Formula.Ast.{Aggregate, sum, count, avg, min, max, Node, num, ref, agg, bin, neg}
use flexitype.Formula.Rat.{Rat, of_count, is_zero, less, quo, set_string}
use flexitype.Formula.Rat

-- The arithmetic of float64, on bits.
pub record Floats : Type 0 where
  pub add : ℕ → ℕ → ℕ
  pub sub : ℕ → ℕ → ℕ
  pub mul : ℕ → ℕ → ℕ
  pub div : ℕ → ℕ → ℕ
  pub negate : ℕ → ℕ
  pub of_int : ℕ → ℕ

-- nil, or how many values a name has.
abbrev pub Members : Type 0
Members = Option (Bytes → ℕ)

abbrev pub Inputs : Type 0
Inputs = Bytes → List ℕ

-- A *big.Rat may be nil.
abbrev pub RatInputs : Type 0
RatInputs = Bytes → List (Option Rat)

-- aggNode.count.
unfoldable pub member_count : Bytes → ℕ → Members → ℕ
member_count name numeric none = numeric
member_count name numeric (some members) = members name

-- A value where there is exactly one.
unfoldable pub single {ℓ} : {A : Type ℓ} → List A → Option A
single [] = none
single (v ∷ []) = some v
single (v ∷ w ∷ vs) = none

-- Both operands, or nothing.
abbrev pub both {ℓ κ μ} :
    {A : Type ℓ} {B : Type κ} {C : Type μ} → Option A → Option B → (A → B → Option C) → Option C
both none y f = none
both (some a) none f = none
both (some a) (some b) f = f a b

module _ (floats : Floats) where
  unfoldable pub total : ℕ → List ℕ → ℕ
  total acc [] = acc
  total acc (v ∷ vs) = total (floats.add acc v) vs

  unfoldable pub best : (ℕ → ℕ → Bool) → ℕ → List ℕ → ℕ
  best better found [] = found
  best better found (v ∷ vs) = best better (if better v found then v else found) vs

  -- aggNode.eval behind its case of count: an absent name has no value to fold.
  unfoldable pub fold_values : Aggregate → List ℕ → Option ℕ
  unfolding total best
  fold_values fn [] = none
  fold_values sum vs = some (total 0 vs)
  fold_values avg vs = some (floats.div (total 0 vs) (floats.of_int (length vs)))
  fold_values min (v ∷ vs) = some (best float_lt v vs)
  fold_values max (v ∷ vs) = some (best (λ a b. float_lt b a) v vs)
  fold_values count vs = none

  unfoldable pub eval_agg : Aggregate → Bytes → Inputs → Members → Option ℕ
  unfolding fold_values member_count
  eval_agg count name vars members =
      some (floats.of_int (member_count name (length (vars name)) members))
  eval_agg fn name vars members = fold_values fn (vars name)

  -- binNode.eval behind its operands.
  unfoldable pub apply : ℕ → ℕ → ℕ → Option ℕ
  apply op l r =
      if op == b'+'
      then some (floats.add l r)
      else if op == b'-'
      then some (floats.sub l r)
      else if op == b'*'
      then some (floats.mul l r)
      else if op == b'/'
      then (if float_eq r 0 then none else some (floats.div l r))
      else none

  unfoldable pub eval : Node → Inputs → Members → Option ℕ
  unfolding eval_agg single apply
  eval (num f text) vars members = some f
  eval (ref name) vars members = single (vars name)
  eval (agg fn name) vars members = eval_agg fn name vars members
  eval (bin op x y) vars members = both (eval x vars members) (eval y vars members) (apply op)
  eval (neg x) vars members = Option.map floats.negate (eval x vars members)

-- The values of a list with no nil in it.
unfoldable pub all_present : List (Option Rat) → Option (List Rat)
all_present [] = some []
all_present (none ∷ vs) = none
all_present (some v ∷ vs) = Option.map (λ ws. v ∷ ws) (all_present vs)

unfoldable pub total_rat : Rat → List Rat → Rat
total_rat acc [] = acc
total_rat acc (v ∷ vs) = total_rat (Rat.add acc v) vs

unfoldable pub best_rat : (Rat → Rat → Bool) → Rat → List Rat → Rat
best_rat better found [] = found
best_rat better found (v ∷ vs) = best_rat better (if better v found then v else found) vs

unfoldable pub fold_rats : Aggregate → List Rat → Option Rat
unfolding total_rat best_rat
fold_rats fn [] = none
fold_rats sum vs = some (total_rat (of_count 0) vs)
fold_rats avg vs = some (quo (total_rat (of_count 0) vs) (of_count (length vs)))
fold_rats min (v ∷ vs) = some (best_rat less v vs)
fold_rats max (v ∷ vs) = some (best_rat (λ a b. less b a) v vs)
fold_rats count vs = none

-- aggNode.evalRat.
unfoldable pub agg_rat : Aggregate → Bytes → RatInputs → Members → Option Rat
unfolding fold_rats member_count all_present Option.bind
agg_rat count name vars members = some (of_count (member_count name (length (vars name)) members))
agg_rat fn name vars members = Option.bind (all_present (vars name)) (fold_rats fn)

-- refNode.evalRat.
unfoldable pub present : Option (Option Rat) → Option Rat
present none = none
present (some v) = v

unfoldable pub apply_rat : ℕ → Rat → Rat → Option Rat
apply_rat op l r =
    if op == b'+'
    then some (Rat.add l r)
    else if op == b'-'
    then some (Rat.sub l r)
    else if op == b'*'
    then some (Rat.mul l r)
    else if op == b'/'
    then (if is_zero r then none else some (quo l r))
    else none

unfoldable pub eval_rat : Node → RatInputs → Members → Option Rat
unfolding agg_rat single present apply_rat
eval_rat (num f text) vars members = set_string text
eval_rat (ref name) vars members = present (single (vars name))
eval_rat (agg fn name) vars members = agg_rat fn name vars members
eval_rat (bin op x y) vars members =
    both (eval_rat x vars members) (eval_rat y vars members) (apply_rat op)
eval_rat (neg x) vars members = Option.map Rat.negate (eval_rat x vars members)
