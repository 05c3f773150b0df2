-- ===== src/Formula/Eval/Exact.antt =====
-- Formula.Eval.Exact: exact evaluation stays within the rationals.
use Prim.{tt}
use Prim.Native.Nat.{◌^◌}
use mathlib.Core.Option
use native.Mathlib.Nat.{pow-suc, mul-pos}
use flexitype.Prelude.{
  ℕ, zero, suc, ◌+◌, ◌*◌, ◌<◌, ◌≡◌, refl, Bool, true, false, Option, none, some, List, [], ◌∷◌,
  ◌==◌, if◌then◌else◌, arith, length, All, ◌&&◌, Bool-cases, inl, inr,
}
use flexitype.Bytes.{Bytes, span, is_digit}
use flexitype.Formula.Ast.{Aggregate, sum, count, avg, min, max, Node, num, ref, agg, bin, neg}
use flexitype.Formula.Rat
use flexitype.Formula.Rat.{Rat, of_count, is_zero, quo, less, set_string}
use flexitype.Formula.Eval.{
  Members, RatInputs, single, both, all_present, total_rat, best_rat, fold_rats, agg_rat, present,
  apply_rat, eval_rat,
}

-- The denominator is not zero.
abbrev pub IsRat : Rat → Type 0
IsRat a = 0 < a.den

-- A result, where there is one, has a denominator.
abbrev pub WhenSome {ℓ} : {A : Type ℓ} → (A → Type 0) → Option A → Type 0
WhenSome P none = Unit
WhenSome P (some a) = P a

abbrev pub AllRats : List (Option Rat) → Type 0
AllRats [] = Unit
AllRats (v ∷ vs) = WhenSome IsRat v × AllRats vs

pow_pos : (n : ℕ) → 0 < 10 ^ n
pow_pos zero = omega arith
pow_pos (suc n) = rw pow-suc (omega (arith, pow_pos n))

scaled-IsRat : (whole fraction : Bytes) → WhenSome IsRat (Rat.scaled whole fraction)
unfolding Rat.scaled
scaled-IsRat whole fraction = elim (Bool-cases (length whole + length fraction == 0)) [
  | inl e ↦ rw e tt
  | inr e ↦ rw e (pow_pos (length fraction))
]

WhenSome-if :
    (b : Bool) (o : Option Rat) → WhenSome IsRat o → WhenSome IsRat (if b then o else none)
WhenSome-if true o h = h
WhenSome-if false o h = tt

set_string-IsRat : (text : Bytes) → WhenSome IsRat (set_string text)
unfolding set_string
set_string-IsRat text = behind (span is_digit text).0 (span is_digit text).1
  where
    behind : (whole rest : Bytes) → WhenSome IsRat (Rat.after_whole whole rest)
    behind whole [] = unfold Rat.after_whole in scaled-IsRat whole []
    behind whole (c ∷ rest) =
        unfold Rat.after_whole in
        WhenSome-if (c == b'.' && length (span is_digit rest).1 == 0)
          (Rat.scaled whole (span is_digit rest).0) (scaled-IsRat whole (span is_digit rest).0)

quo-IsRat : (a b : Rat) → IsRat a → is_zero b ≡ false → IsRat (quo a b)
unfolding quo is_zero
quo-IsRat a b h z = mul-pos h (ground arith)

WhenSome-branch :
    (b : Bool) (o p : Option Rat)
    → WhenSome IsRat o
    → WhenSome IsRat p
    → WhenSome IsRat (if b then o else p)
WhenSome-branch true o p h k = h
WhenSome-branch false o p h k = k

divided-IsRat :
    (l r : Rat)
    → IsRat l
    → (b : Bool) → is_zero r ≡ b
    → WhenSome IsRat (if b then none else some (quo l r))
divided-IsRat l r h true e = tt
divided-IsRat l r h false e = quo-IsRat l r h e

apply_rat-IsRat : (op : ℕ) (l r : Rat) → IsRat l → IsRat r → WhenSome IsRat (apply_rat op l r)
unfolding apply_rat Rat.add Rat.sub Rat.mul Rat.negate
apply_rat-IsRat op l r h k =
    let product : 0 < l.den * r.den = mul-pos h k in
    let quotient = if op == b'/' then (if is_zero r then none else some (quo l r)) else none in
    let after_minus = if op == b'*' then some (Rat.mul l r) else quotient in
    let after_plus = if op == b'-' then some (Rat.sub l r) else after_minus in
    WhenSome-branch (op == b'+') (some (Rat.add l r)) after_plus product (
      WhenSome-branch (op == b'-') (some (Rat.sub l r)) after_minus product (
        WhenSome-branch (op == b'*') (some (Rat.mul l r)) quotient product (
          WhenSome-if (op == b'/') (if is_zero r then none else some (quo l r))
            (divided-IsRat l r h (is_zero r) refl))))

total_rat-IsRat : (acc : Rat) (vs : List Rat) → IsRat acc → All IsRat vs → IsRat (total_rat acc vs)
unfolding total_rat Rat.add
total_rat-IsRat acc [] h hs = h
total_rat-IsRat acc (v ∷ vs) h hs = total_rat-IsRat (Rat.add acc v) vs (mul-pos h hs.0) hs.1

best_rat-IsRat :
    (better : Rat → Rat → Bool) (v : Rat) (vs : List Rat)
    → IsRat v
    → All IsRat vs
    → IsRat (best_rat better v vs)
unfolding best_rat
best_rat-IsRat better v [] h hs = h
best_rat-IsRat better v (w ∷ vs) h hs =
    best_rat-IsRat better (if better w v then w else v) vs (pick (better w v)) hs.1
  where
    pick : (b : Bool) → IsRat (if b then w else v)
    pick true = hs.0
    pick false = h

fold_rats-IsRat : (fn : Aggregate) (vs : List Rat) → All IsRat vs → WhenSome IsRat (fold_rats fn vs)
unfolding fold_rats quo
fold_rats-IsRat fn [] h = tt
fold_rats-IsRat sum (v ∷ vs) h = total_rat-IsRat (of_count 0) (v ∷ vs) (omega arith) h
fold_rats-IsRat avg (v ∷ vs) h =
    mul-pos (total_rat-IsRat (of_count 0) (v ∷ vs) (omega arith) h) (omega arith)
fold_rats-IsRat min (v ∷ vs) h = best_rat-IsRat less v vs h.0 h.1
fold_rats-IsRat max (v ∷ vs) h = best_rat-IsRat (λ a b. less b a) v vs h.0 h.1
fold_rats-IsRat count (v ∷ vs) h = tt

all_present-IsRat : (vs : List (Option Rat)) → AllRats vs → WhenSome (All IsRat) (all_present vs)
unfolding all_present
all_present-IsRat [] h = tt
all_present-IsRat (none ∷ vs) h = tt
all_present-IsRat (some v ∷ vs) h = joined (all_present vs) (all_present-IsRat vs h.1)
  where
    joined :
        (o : Option (List Rat))
        → WhenSome (All IsRat) o
        → WhenSome (All IsRat) (Option.map (λ ws. v ∷ ws) o)
    joined none k = tt
    joined (some ws) k = (h.0, k)

folded-IsRat :
    (fn : Aggregate) (o : Option (List Rat))
    → WhenSome (All IsRat) o
    → WhenSome IsRat (Option.bind o (fold_rats fn))
unfolding Option.bind
folded-IsRat fn none h = tt
folded-IsRat fn (some vs) h = fold_rats-IsRat fn vs h

module _ (vars : RatInputs) (members : Members) (given : (name : Bytes) → AllRats (vars name)) where
  agg_rat-IsRat : (fn : Aggregate) (name : Bytes) → WhenSome IsRat (agg_rat fn name vars members)
  unfolding agg_rat
  agg_rat-IsRat count name = omega arith
  agg_rat-IsRat fn name =
      folded-IsRat fn (all_present (vars name)) (all_present-IsRat (vars name) (given name))

  single-IsRat : (vs : List (Option Rat)) → AllRats vs → WhenSome IsRat (present (single vs))
  unfolding single present
  single-IsRat [] h = tt
  single-IsRat (v ∷ []) h = h.0
  single-IsRat (v ∷ w ∷ vs) h = tt

  both-IsRat :
      (op : ℕ) (o p : Option Rat)
      → WhenSome IsRat o
      → WhenSome IsRat p
      → WhenSome IsRat (both o p (apply_rat op))
  both-IsRat op none p h k = tt
  both-IsRat op (some l) none h k = tt
  both-IsRat op (some l) (some r) h k = apply_rat-IsRat op l r h k

  negated-IsRat : (o : Option Rat) → WhenSome IsRat o → WhenSome IsRat (Option.map Rat.negate o)
  unfolding Rat.negate
  negated-IsRat none h = tt
  negated-IsRat (some v) h = h

  -- Exact evaluation of any tree, on inputs that are rationals or nil, gives a rational or nothing: no
  -- division by zero is made, in a quotient, in an average or in reading a literal.
  pub eval_rat-IsRat : (x : Node) → WhenSome IsRat (eval_rat x vars members)
  unfolding eval_rat
  eval_rat-IsRat (num f text) = set_string-IsRat text
  eval_rat-IsRat (ref name) = single-IsRat (vars name) (given name)
  eval_rat-IsRat (agg fn name) = agg_rat-IsRat fn name
  eval_rat-IsRat (bin c x y) =
      both-IsRat c (eval_rat x vars members) (eval_rat y vars members) (eval_rat-IsRat x)
        (eval_rat-IsRat y)
  eval_rat-IsRat (neg x) = negated-IsRat (eval_rat x vars members) (eval_rat-IsRat x)
