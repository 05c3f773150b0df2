-- ===== src/Application/Query/Binder/Conditions.antt =====
-- Application.Query.Binder.Conditions: the conditions on a field that are bound by application/query/binder.go.
use Prim.{tt}
use flexitype.Prelude.{
  ℕ, ◌≡◌, Bool, true, false, ◌&&◌, not, Option, none, some, List, arith, Option-cases, inl, inr,
}
use flexitype.Bytes.{Bytes, eq_bytes}
use flexitype.Keyed.{get}
use flexitype.Domain.Errors.{Result, ◌>>=◌}
use flexitype.Domain.Errors.Outcomes.{WhenOk, WhenOk-map, WhenOk-chain, WhenOk-guard}
use flexitype.Domain.Values.DataType.{is_textual, is_ordered}
use flexitype.Domain.Values.Value.{has_type}
use flexitype.Application.Access.{Access}
use flexitype.Application.Query.Bound.{Attr, BoundNode}
use flexitype.Application.Query.Scope.{Scope, Attrs, is_visible}
use flexitype.Application.Query.Scope.Visible.{all_visible, links_visible, get-IsVisible, At}
use flexitype.Application.Query.Literals.Typed.{
  int_literal-Typed, coerce_literal-Typed, all_typed, coerce_all-Typed,
}
use flexitype.Application.Query.Literals.{Texts, Families, coerce_literal, coerce_all, int_literal}
use flexitype.Application.Query.Fields.{
  Binder, is_none, is_ordering, found, resolve_link, resolve_entity, resolve_field, compared,
  bind_compare, bind_in, bind_range, bind_has,
}
use flexitype.Application.Query.Binder.{bind_string_match}
use flexitype.Fql.Ast.{
  AggFunc, func_none, func_min, func_max, func_count, func_length, Field, FieldScope, scope_entity,
  scope_link, scope_type, CompareOp, cmp_isa, Literal, StringMatchKind,
}
use flexitype.Application.Query.Binder.Shape.{fits, is_bound}

abbrev pub Bound : Access → Bytes → ℕ → BoundNode → Type 0
Bound access name left n = is_bound access name left n ≡ true

abbrev pub Seen : Access → Attr × Bool → Type 0
Seen access r = is_visible access r.0 ≡ true

found-Seen :
    (access : Access) (link : Bool) (attrs : Attrs) (name : Bytes)
    → all_visible access attrs ≡ true
    → WhenOk (Seen access) (found link (get name attrs))
unfolding found
found-Seen access link attrs name v = elim (Option-cases (get name attrs)) [
  | inl e ↦ rw e tt
  | inr (a, e) ↦ rw e (let h = get-IsVisible access name attrs a v e in ground arith)
]

resolve_field-Seen :
    (access : Access) (depth : ℕ) (f : Field) (s : Scope)
    → At access depth s
    → WhenOk (Seen access) (resolve_field f s)
unfolding resolve_field resolve_link resolve_entity links_visible
resolve_field-Seen access depth f s (v, d) = go f.scope s.link_attrs (ground arith)
  where
    of_entity : WhenOk (Seen access) (resolve_entity f.name s)
    of_entity =
        WhenOk-guard (Seen access) _ _ _ λ _. found-Seen access false s.attrs f.name (ground arith)

    go :
        (scope : FieldScope) (links : Option Attrs)
        → links_visible access links ≡ true
        → WhenOk (Seen access) (elim scope [
          | scope_link ↦ resolve_link f.name links
          | scope_entity ↦ resolve_entity f.name s
          | scope_type ↦ resolve_entity f.name s
        ])
    go scope_link none h = tt
    go scope_link (some links) h = found-Seen access true links f.name h
    go scope_entity links h = of_entity
    go scope_type links h = of_entity

module _ (texts : Texts) (families : Families) (attr : Attr) where
  compared-Fits :
      (func : AggFunc) (op : CompareOp) (lit : Literal)
      → WhenOk (λ v. fits attr func op v ≡ true) (compared texts families attr func op lit)
  unfolding compared fits
  compared-Fits func_length op lit =
      WhenOk-guard _ (not (is_textual attr.data_type)) _ _
        λ t. WhenOk-map _ _ (int_literal lit) (int_literal-Typed lit) λ v h. ground arith
  compared-Fits func_count op lit = int_literal-Typed lit
  compared-Fits func_min op lit = WhenOk-guard _ (not (is_ordered attr.data_type)) _ _ λ t.
      WhenOk-map _ _ (coerce_literal texts families attr lit)
        (coerce_literal-Typed texts families attr lit) λ v h. ground arith
  compared-Fits func_max op lit = WhenOk-guard _ (not (is_ordered attr.data_type)) _ _ λ t.
      WhenOk-map _ _ (coerce_literal texts families attr lit)
        (coerce_literal-Typed texts families attr lit) λ v h. ground arith
  compared-Fits func_none op lit =
      WhenOk-guard _ (is_ordering op && not (is_ordered attr.data_type)) _ _ λ t.
        WhenOk-map _ _ (coerce_literal texts families attr lit)
          (coerce_literal-Typed texts families attr lit) λ v h. ground arith

module _ (b : Binder) (name : Bytes) (depth : ℕ) (s : Scope) (inview : At b.access depth s)
    (left : ℕ) where
  of_field :
      (field : Field) (rest : Attr × Bool → Result BoundNode)
      → ((r : Attr × Bool) → Seen b.access r → WhenOk (Bound b.access name left) (rest r))
      → WhenOk (Bound b.access name left) (resolve_field field s >>= rest)
  of_field field rest h =
      WhenOk-chain (Seen b.access) _ (resolve_field field s) rest
        (resolve_field-Seen b.access depth field s inview) h

  pub bind_compare-Bound :
      (func : AggFunc) (field : Field) (op : CompareOp) (lit : Literal)
      → WhenOk (Bound b.access name left) (bind_compare b s func field op lit)
  unfolding bind_compare is_bound
  bind_compare-Bound func field op lit = of_field field _ λ (attr, link) v.
      WhenOk-guard _ (eq_bytes op cmp_isa) _ _ λ isa.
        WhenOk-chain (λ x. fits attr func op x ≡ true) _
          (compared b.texts b.families attr func op lit) _
          (compared-Fits b.texts b.families attr func op lit) λ x fit. ground arith

  pub bind_in-Bound :
      (func : AggFunc) (field : Field) (lits : List Literal)
      → WhenOk (Bound b.access name left) (bind_in b s func field lits)
  unfolding bind_in is_bound
  bind_in-Bound func field lits = of_field field _ λ (attr, link) v.
      WhenOk-guard _ (not (is_none func)) _ _ λ _.
        WhenOk-chain (λ vs. all_typed attr.data_type vs ≡ true) _
          (coerce_all b.texts b.families attr lits) _
          (coerce_all-Typed b.texts b.families attr lits) λ vs h. ground arith

  pub bind_range-Bound :
      (func : AggFunc) (field : Field) (low high : Literal)
      → WhenOk (Bound b.access name left) (bind_range b s func field low high)
  unfolding bind_range is_bound
  bind_range-Bound func field low high = of_field field _ λ (attr, link) v.
      WhenOk-guard _ (not (is_none func)) _ _ λ _.
        WhenOk-guard _ (not (is_ordered attr.data_type)) _ _ λ o.
          WhenOk-chain (λ x. has_type attr.data_type x ≡ true) _
            (coerce_literal b.texts b.families attr low) _
            (coerce_literal-Typed b.texts b.families attr low)
            λ lo hl.
              WhenOk-chain (λ x. has_type attr.data_type x ≡ true) _
                (coerce_literal b.texts b.families attr high) _
                (coerce_literal-Typed b.texts b.families attr high) λ hi hh. ground arith

  pub bind_has-Bound : (field : Field) → WhenOk (Bound b.access name left) (bind_has s field)
  unfolding bind_has is_bound
  bind_has-Bound field = of_field field _ λ (attr, link) v. v

  pub bind_string_match-Bound :
      (kind : StringMatchKind) (field : Field) (lit : Literal)
      → WhenOk (Bound b.access name left) (bind_string_match s kind field lit)
  unfolding bind_string_match is_bound
  bind_string_match-Bound kind field lit =
      of_field field _
        λ (attr, link) v. WhenOk-guard _ (not (is_textual attr.data_type)) _ _ λ t. ground arith
