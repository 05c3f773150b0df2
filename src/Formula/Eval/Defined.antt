-- ===== src/Formula/Eval/Defined.antt =====
-- Formula.Eval.Defined: when an evaluation has a result.
use mathlib.Core.Option
use flexitype.Prelude.{
  ℕ, ◌≡◌, refl, inl, inr, ◌↔◌, Bool, true, false, ◌||◌, not, Option, none, some, List, [], ◌∷◌,
  ◌==◌, arith, Bool-cases,
}
use flexitype.Bytes.{Bytes}
use flexitype.Outcome.{ok}
use flexitype.Formula.Ast.{
  Aggregate, sum, count, avg, min, max, is_count, Node, num, ref, agg, bin, neg,
}
use flexitype.Formula.Parser.{Expr, parse}
use flexitype.Formula.Names.{reads_bare, reads_numbers}
use flexitype.Formula.Names.Each.{
  Each, Each-left, Each-right, Each-both, Each-nil, Each-one, Each-the, Each-distinct,
  Each-collected,
}
use flexitype.Formula.Parse.{parse-NamesOf}
use flexitype.Formula.Eval.{
  Floats, Members, Inputs, single, both, fold_values, eval_agg, apply, eval,
}

-- Only sums, differences and products.
unfoldable pub divides : Node → Bool
divides (bin c x y) = not (c == b'+' || c == b'-' || c == b'*') || divides x || divides y
divides (neg x) = divides x
divides _ = false

-- A name has exactly one value; it has a value.
abbrev pub HasOne : Inputs → Bytes → Type 0
HasOne vars name = (v : ℕ) × (vars name ≡ v ∷ [])

abbrev pub HasSome : Inputs → Bytes → Type 0
HasSome vars name = (v : ℕ) × (vs : List ℕ) × (vars name ≡ v ∷ vs)

abbrev pub IsDefined : Option ℕ → Type 0
IsDefined o = (v : ℕ) × (o ≡ some v)

single-defined : (vs : List ℕ) → IsDefined (single vs) → (v : ℕ) × (vs ≡ v ∷ [])
unfolding single
single-defined [] (v, e) = cc
single-defined (v ∷ []) d = (v, refl)
single-defined (v ∷ w ∷ vs) (u, e) = cc

module _ (floats : Floats) (vars : Inputs) (members : Members) where
  fold_values-some :
      (fn : Aggregate) (v : ℕ) (vs : List ℕ)
      → is_count fn ≡ false
      → IsDefined (fold_values floats fn (v ∷ vs))
  unfolding fold_values is_count
  fold_values-some count v vs h = cc
  fold_values-some sum v vs h = (_, refl)
  fold_values-some avg v vs h = (_, refl)
  fold_values-some min v vs h = (_, refl)
  fold_values-some max v vs h = (_, refl)

  fold_values-needs :
      (fn : Aggregate) (vs : List ℕ)
      → IsDefined (fold_values floats fn vs)
      → (w : ℕ) × (ws : List ℕ) × (vs ≡ w ∷ ws)
  unfolding fold_values
  fold_values-needs fn [] (v, e) = cc
  fold_values-needs fn (w ∷ ws) d = (w, ws, refl)

  apply-ring :
      (c l r : ℕ) → (c == b'+' || c == b'-' || c == b'*') ≡ true → IsDefined (apply floats c l r)
  unfolding apply
  apply-ring c l r h = elim (Bool-cases (c == b'+')) [
    | inl a ↦ (floats.add l r, rw a)
    | inr a ↦ elim (Bool-cases (c == b'-')) [
      | inl b ↦ (floats.sub l r, rw (a, b))
      | inr b ↦ (floats.mul l r, ground arith)
    ]
  ]

  both-some :
      (x y : Option ℕ) (f : ℕ → ℕ → Option ℕ) → IsDefined (both x y f) → IsDefined x × IsDefined y
  both-some none y f (v, e) = cc
  both-some (some a) none f (v, e) = cc
  both-some (some a) (some b) f d = ((a, refl), (b, refl))

  map-some : (f : ℕ → ℕ) (x : Option ℕ) → IsDefined (Option.map f x) → IsDefined x
  map-some f none (v, e) = cc
  map-some f (some a) d = (a, refl)

  -- What a result needs.
  eval-Supplied :
      (x : Node)
      → IsDefined (eval floats x vars members)
      → Each (HasOne vars) (reads_bare x) × Each (HasSome vars) (reads_numbers x)
  unfolding eval eval_agg reads_bare reads_numbers is_count
  eval-Supplied (num f text) d = (Each-nil (HasOne vars), Each-nil (HasSome vars))
  eval-Supplied (ref name) d =
      let (v, e) = single-defined (vars name) d in
      (Each-one (HasOne vars) name (v, e), Each-one (HasSome vars) name (v, [], e))
  eval-Supplied (agg count name) d = (Each-nil (HasOne vars), Each-nil (HasSome vars))
  eval-Supplied (agg sum name) d =
      (Each-nil (HasOne vars), Each-one (HasSome vars) name (fold_values-needs sum (vars name) d))
  eval-Supplied (agg avg name) d =
      (Each-nil (HasOne vars), Each-one (HasSome vars) name (fold_values-needs avg (vars name) d))
  eval-Supplied (agg min name) d =
      (Each-nil (HasOne vars), Each-one (HasSome vars) name (fold_values-needs min (vars name) d))
  eval-Supplied (agg max name) d =
      (Each-nil (HasOne vars), Each-one (HasSome vars) name (fold_values-needs max (vars name) d))
  eval-Supplied (bin c x y) d =
      let (dx, dy) =
        both-some (eval floats x vars members) (eval floats y vars members) (apply floats c) d in
      let (one_x, some_x) = eval-Supplied x dx in
      let (one_y, some_y) = eval-Supplied y dy in
      (
        Each-both (HasOne vars) (reads_bare x) (reads_bare y) one_x one_y,
        Each-both (HasSome vars) (reads_numbers x) (reads_numbers y) some_x some_y,
      )
  eval-Supplied (neg x) d = eval-Supplied x (map-some floats.negate (eval floats x vars members) d)

  fold_values-IsDefined :
      (fn : Aggregate) (name : Bytes)
      → is_count fn ≡ false
      → HasSome vars name
      → IsDefined (fold_values floats fn (vars name))
  fold_values-IsDefined fn name h (v, vs, e) = rw e (fold_values-some fn v vs h)

  -- What is enough where nothing is divided.
  eval-IsDefined :
      (x : Node)
      → divides x ≡ false
      → Each (HasOne vars) (reads_bare x)
      → Each (HasSome vars) (reads_numbers x)
      → IsDefined (eval floats x vars members)
  unfolding eval eval_agg reads_bare reads_numbers is_count divides single
  eval-IsDefined (num f text) h one any = (f, refl)
  eval-IsDefined (ref name) h one any = let (v, e) = Each-the (HasOne vars) name one in (v, rw e)
  eval-IsDefined (agg count name) h one any = (_, refl)
  eval-IsDefined (agg sum name) h one any =
      fold_values-IsDefined sum name refl (Each-the (HasSome vars) name any)
  eval-IsDefined (agg avg name) h one any =
      fold_values-IsDefined avg name refl (Each-the (HasSome vars) name any)
  eval-IsDefined (agg min name) h one any =
      fold_values-IsDefined min name refl (Each-the (HasSome vars) name any)
  eval-IsDefined (agg max name) h one any =
      fold_values-IsDefined max name refl (Each-the (HasSome vars) name any)
  eval-IsDefined (bin c x y) h one any =
      let (l, dx) =
        eval-IsDefined x (ground arith) (Each-left (HasOne vars) (reads_bare x) (reads_bare y) one)
          (Each-left (HasSome vars) (reads_numbers x) (reads_numbers y) any) in
      let (r, dy) =
        eval-IsDefined y (ground arith) (Each-right (HasOne vars) (reads_bare x) (reads_bare y) one)
          (Each-right (HasSome vars) (reads_numbers x) (reads_numbers y) any) in
      let (v, e) = apply-ring c l r (ground arith) in (v, rw (dx, dy) e)
  eval-IsDefined (neg x) h one any =
      let (v, e) = eval-IsDefined x h one any in (floats.negate v, rw e)

  -- A formula without a division has a result exactly if every name in ScalarRefs has one value, and every name
  -- in NumericRefs has a value.
  pub eval-IsDefined_iff :
      (parse_float : Bytes → Option ℕ) (src : Bytes) {e : Expr}
      → parse parse_float src ≡ ok e
      → divides e.root ≡ false
      → IsDefined (eval floats e.root vars members)
        ↔ (Each (HasOne vars) e.names.scalar_refs × Each (HasSome vars) e.names.numeric_refs)
  eval-IsDefined_iff parse_float src {e} p h =
      let (refs, scalar, numeric) = parse-NamesOf parse_float src p in
      (
        λ d.
            let (one, any) = eval-Supplied e.root d in
            (
              Each-collected (HasOne vars) e.names.scalar_refs (reads_bare e.root) scalar one,
              Each-collected (HasSome vars) e.names.numeric_refs (reads_numbers e.root) numeric any,
            ),
        λ (one, any).
            eval-IsDefined e.root h
              (Each-distinct (HasOne vars) e.names.scalar_refs (reads_bare e.root) scalar one)
              (Each-distinct (HasSome vars) e.names.numeric_refs (reads_numbers e.root) numeric
                any),
      )
