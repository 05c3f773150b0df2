-- ===== src/Formula/Eval/Needs.antt =====
-- Formula.Eval.Needs: which inputs an evaluation looks at, and when it has a result.
use mathlib.Core.Option
use flexitype.Prelude.{ℕ, ◌≡◌, refl, ap, Option, none, some, length}
use flexitype.Bytes.{Bytes}
use flexitype.Outcome.{ok}
use flexitype.Formula.Ast.{Aggregate, count, Node, num, ref, agg, bin, neg}
use flexitype.Formula.Rat
use flexitype.Formula.Parser.{Expr, parse}
use flexitype.Formula.Names.{reads}
use flexitype.Formula.Names.Each.{Each, Each-left, Each-right, Each-the, Each-distinct}
use flexitype.Formula.Parse.{parse-NamesOf}
use flexitype.Formula.Eval.{
  Floats, Members, Inputs, RatInputs, member_count, single, fold_values, eval_agg, eval,
  all_present, fold_rats, agg_rat, present, eval_rat,
}

-- Two maps give the same for a name.
abbrev pub Alike {ℓ} : {A : Type ℓ} → (Bytes → A) → (Bytes → A) → Bytes → Type ℓ
Alike f g name = f name ≡ g name

abbrev pub AlikeMembers : Members → Members → Bytes → Type 0
AlikeMembers none none name = Unit
AlikeMembers (some f) (some g) name = f name ≡ g name
AlikeMembers _ _ name = ⊥

member_count-Alike :
    (ms ms' : Members) (name : Bytes) (k : ℕ)
    → AlikeMembers ms ms' name
    → member_count name k ms ≡ member_count name k ms'
unfolding member_count
member_count-Alike none none name k h = refl
member_count-Alike none (some g) name k h = absurd h
member_count-Alike (some f) none name k h = absurd h
member_count-Alike (some f) (some g) name k h = h

module _ (ms ms' : Members) where
  module _ (floats : Floats) (vars vars' : Inputs) where
    eval_agg-Alike :
        (fn : Aggregate) (name : Bytes)
        → vars name ≡ vars' name
        → AlikeMembers ms ms' name
        → eval_agg floats fn name vars ms ≡ eval_agg floats fn name vars' ms'
    unfolding eval_agg
    eval_agg-Alike count name e h = rw (e, member_count-Alike ms ms' name (length (vars' name)) h)
    eval_agg-Alike fn name e h = ap (fold_values floats fn) e

    eval-Alike :
        (x : Node)
        → Each (Alike vars vars') (reads x)
        → Each (AlikeMembers ms ms') (reads x)
        → eval floats x vars ms ≡ eval floats x vars' ms'
    unfolding eval reads
    eval-Alike (num f text) h k = refl
    eval-Alike (ref name) h k = ap single (Each-the (Alike vars vars') name h)
    eval-Alike (agg fn name) h k =
        eval_agg-Alike fn name (Each-the (Alike vars vars') name h)
          (Each-the (AlikeMembers ms ms') name k)
    eval-Alike (bin c x y) h k =
        let l =
          eval-Alike x (Each-left (Alike vars vars') (reads x) (reads y) h)
            (Each-left (AlikeMembers ms ms') (reads x) (reads y) k) in
        let r =
          eval-Alike y (Each-right (Alike vars vars') (reads x) (reads y) h)
            (Each-right (AlikeMembers ms ms') (reads x) (reads y) k) in
        rw (l, r)
    eval-Alike (neg x) h k = ap (Option.map floats.negate) (eval-Alike x h k)

  module _ (vars vars' : RatInputs) where
    agg_rat-Alike :
        (fn : Aggregate) (name : Bytes)
        → vars name ≡ vars' name
        → AlikeMembers ms ms' name
        → agg_rat fn name vars ms ≡ agg_rat fn name vars' ms'
    unfolding agg_rat
    agg_rat-Alike count name e h = rw (e, member_count-Alike ms ms' name (length (vars' name)) h)
    agg_rat-Alike fn name e h = ap (λ vs. Option.bind (all_present vs) (fold_rats fn)) e

    eval_rat-Alike :
        (x : Node)
        → Each (Alike vars vars') (reads x)
        → Each (AlikeMembers ms ms') (reads x)
        → eval_rat x vars ms ≡ eval_rat x vars' ms'
    unfolding eval_rat reads
    eval_rat-Alike (num f text) h k = refl
    eval_rat-Alike (ref name) h k =
        ap (λ vs. present (single vs)) (Each-the (Alike vars vars') name h)
    eval_rat-Alike (agg fn name) h k =
        agg_rat-Alike fn name (Each-the (Alike vars vars') name h)
          (Each-the (AlikeMembers ms ms') name k)
    eval_rat-Alike (bin c x y) h k = rw (
      eval_rat-Alike x (Each-left (Alike vars vars') (reads x) (reads y) h)
          (Each-left (AlikeMembers ms ms') (reads x) (reads y) k),
      eval_rat-Alike y (Each-right (Alike vars vars') (reads x) (reads y) h)
          (Each-right (AlikeMembers ms ms') (reads x) (reads y) k),
    )
    eval_rat-Alike (neg x) h k = ap (Option.map Rat.negate) (eval_rat-Alike x h k)

-- What a formula evaluates to, in floats and in exact rationals, depends on nothing but the values, and the
-- counts of members, of the names that Refs lists.
pub eval-reads-refs :
    (floats : Floats) (parse_float : Bytes → Option ℕ) (src : Bytes) {e : Expr} (ms ms' : Members)
    (vars vars' : Inputs) (rats rats' : RatInputs)
    → parse parse_float src ≡ ok e
    → Each (AlikeMembers ms ms') e.names.refs
    → Each (Alike vars vars') e.names.refs
    → Each (Alike rats rats') e.names.refs
    → (eval floats e.root vars ms ≡ eval floats e.root vars' ms')
      × (eval_rat e.root rats ms ≡ eval_rat e.root rats' ms')
eval-reads-refs floats parse_float src {e} ms ms' vars vars' rats rats' p counted h r =
    let listed = (parse-NamesOf parse_float src p).0 in
    let counts = Each-distinct (AlikeMembers ms ms') e.names.refs (reads e.root) listed counted in
    (
      eval-Alike ms ms' floats vars vars' e.root
          (Each-distinct (Alike vars vars') e.names.refs (reads e.root) listed h) counts,
      eval_rat-Alike ms ms' rats rats' e.root
          (Each-distinct (Alike rats rats') e.names.refs (reads e.root) listed r) counts,
    )
