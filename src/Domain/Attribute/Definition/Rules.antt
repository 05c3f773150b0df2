-- ===== src/Domain/Attribute/Definition/Rules.antt =====
-- Domain.Attribute.Definition.Rules: what holds of every attribute definition that the operations reach.
use Prim.{tt}
use flexitype.Prelude.{
  ◌≡◌, refl, ◌≤◌, true, false, not, Option, none, some, List, arith, subst, ◌+◌,
}
use flexitype.Prelude.Int.{ℤ}
use flexitype.Domain.Errors.{ok, ◌>>◌}
use flexitype.Domain.Errors.Outcomes.{WhenOk, WhenOk-ok, WhenOk-guard, WhenOk-then, then_ok}
use flexitype.Domain.Names.{Ulid, TenantId, is_empty, is_internal_name}
use flexitype.Domain.TypeDef.{is_some}
use flexitype.Domain.Values.DataType.{DataType, eq_type}
use flexitype.Domain.Values.Value.{Platform, Value, is_zero, has_type}
use flexitype.Domain.Values.Dynamic.{
  Moment, Default, validate_default, resolve_default, yields, resolve_default-yields,
}
use flexitype.Domain.Attribute.Constraint.{Constraint, validate, check}
use flexitype.Domain.Attribute.Computed.{Formulas}
use flexitype.Domain.Attribute.Definition.{
  Definition, UpdateInput, NewInput, Event, new, new_of_type, new_typed, create, update, archive,
  restore, is_archived, validate_rules, validate_default_rule, check_static, check_computed,
  has_one_of, validate_value, default_for,
}

module _ (p : Platform) (formulas : Formulas) where
  -- A definition that New has returned, or a successful call has left.
  pub data Reachable : Definition → Type 0 where
    by_new :
        (id : Ulid) (input : NewInput) (now : ℤ) (a : Definition) (es : List Event)
        → new p formulas id input now ≡ ok (a, es)
        → Reachable a
    by_update :
        (input : UpdateInput) (now : ℤ) (a b : Definition) (es : List Event)
        → Reachable a
        → update p formulas input now a ≡ ok (b, es)
        → Reachable b
    by_archive :
        (now : ℤ) (a b : Definition) (es : List Event)
        → Reachable a
        → archive now a ≡ ok (b, es)
        → Reachable b
    by_restore :
        (now : ℤ) (a b : Definition) (es : List Event)
        → Reachable a
        → restore now a ≡ ok (b, es)
        → Reachable b

  -- The rules, as they stand in a definition.
  pub record IsValid (a : Definition) : Type 0 where
    pub single :
        a.fields.multi_valued ≡ true
        → (a.fields.unique ≡ false) × (is_some a.fields.computed ≡ false)
    pub enumerated : a.data_type ≡ DataType.enum → has_one_of a.fields.constraints ≡ true
    pub constraints : validate p a.data_type a.fields.constraints ≡ ok tt
    pub default_value :
        validate_default_rule p a.data_type a.fields.constraints a.fields.default_value ≡ ok tt
    pub named : (is_internal_name a.internal_name ≡ true) × (is_empty a.fields.display_name ≡ false)
    pub versioned : 1 ≤ a.version

  keeps_rules :
      (a : Definition)
      → validate_rules p a.data_type a.fields ≡ ok tt
      → is_internal_name a.internal_name ≡ true
      → is_empty a.fields.display_name ≡ false
      → 1 ≤ a.version
      → IsValid a
  unfolding validate_rules eq_type
  keeps_rules a h name display v = ground arith

  abbrev LeavesValid : Definition × List Event → Type 0
  LeavesValid r = IsValid r.0

  typed-IsValid :
      (id : Ulid) (tenant : TenantId) (type_id : Ulid) (input : NewInput) (now : ℤ)
      → is_internal_name input.internal_name ≡ true
      → is_empty input.fields.display_name ≡ false
      → (dt : Option DataType)
      → WhenOk LeavesValid (new_typed p formulas id tenant type_id input now dt)
  unfolding new_typed create
  typed-IsValid id tenant type_id input now name display none = tt
  typed-IsValid id tenant type_id input now name display (some dt) =
      WhenOk-then LeavesValid
        (validate_rules p dt input.fields >> check_computed formulas input.fields.computed) _
        λ checks.
          keeps_rules (create id tenant type_id dt input now).0 (then_ok _ _ checks).0 name display
            (omega arith)

  new-IsValid :
      (id : Ulid) (input : NewInput) (now : ℤ) (type_id : Option Ulid)
      → WhenOk LeavesValid (new_of_type p formulas id input now type_id)
  unfolding new_of_type
  new-IsValid id input now none = tt
  new-IsValid id input now (some type_id) =
      WhenOk-guard LeavesValid (not (is_internal_name input.internal_name)) _ _ λ name.
        WhenOk-guard LeavesValid (is_empty input.fields.display_name) _ _
          λ display. typed-IsValid id _ type_id input now (ground arith) display input.data_type

  update-IsValid :
      (input : UpdateInput) (now : ℤ) (a : Definition)
      → IsValid a
      → WhenOk LeavesValid (update p formulas input now a)
  unfolding update
  update-IsValid input now a v = WhenOk-guard LeavesValid (is_archived a) _ _ λ live.
      WhenOk-guard LeavesValid (is_empty input.display_name) _ _ λ display.
        WhenOk-then LeavesValid
          (validate_rules p a.data_type input >> check_computed formulas input.computed) _
          λ checks.
            keeps_rules (record a { fields = input; version = a.version + 1; updated_at = now })
              (then_ok _ _ checks).0 v.named.0 display (omega arith)

  -- Every definition that the operations reach keeps the rules: New and Update refuse an input that breaks one.
  pub Reachable-IsValid : (a : Definition) → Reachable a → IsValid a
  unfolding archive restore
  Reachable-IsValid _ (by_new id input now a es h) =
      WhenOk-ok LeavesValid _ (a, es) (new-IsValid id input now input.type_definition_id)
        (unfold new in h)
  Reachable-IsValid _ (by_update input now a b es r h) =
      WhenOk-ok LeavesValid _ (b, es) (update-IsValid input now a (Reachable-IsValid a r)) h
  Reachable-IsValid _ (by_archive now a b es r h) = ground (arith, Reachable-IsValid a r)
  Reachable-IsValid _ (by_restore now a b es r h) = ground (arith, Reachable-IsValid a r)

  static_passes :
      (dt : DataType) (cs : List Constraint) (d : Default) (v : Value)
      → validate_default_rule p dt cs (some d) ≡ ok tt
      → d.static ≡ some v
      → (validate_default dt d ≡ ok tt) × (check p v cs ≡ ok tt)
  unfolding validate_default_rule check_static
  static_passes dt cs d v h s = ground arith

  resolves_static :
      (dt : DataType) (t : Moment) (d : Default) (v : Value)
      → d.static ≡ some v
      → resolve_default dt t d ≡ ok v
  unfolding resolve_default
  resolves_static dt t d v s = rw s refl

  type_not_zero : (dt : DataType) (v : Value) → has_type dt v ≡ true → is_zero v ≡ false
  unfolding has_type is_zero
  type_not_zero dt v h = ground arith

  -- The static default of a reachable definition that is not archived passes ValidateValue: applying it never fails,
  -- whatever the moment.
  pub static_default_passes :
      (a : Definition) (v : Value) (d : Default) (t : Moment)
      → Reachable a
      → is_archived a ≡ false
      → a.fields.default_value ≡ some d
      → d.static ≡ some v
      → (default_for t a ≡ ok v) × (validate_value p a v ≡ ok tt)
  unfolding default_for validate_value
  static_default_passes a v d t r live e s =
      let rule : validate_default_rule p a.data_type a.fields.constraints (some d) ≡ ok tt =
        rw (← e) (Reachable-IsValid a r).default_value in
      let (valid, passes) = static_passes a.data_type a.fields.constraints d v rule s in
      let fits : has_type a.data_type v ≡ true =
        subst (λ q. yields a.data_type q ≡ true) (resolves_static a.data_type t d v s)
          (resolve_default-yields a.data_type t d valid) in
      (rw e (resolves_static a.data_type t d v s), ground (arith, type_not_zero a.data_type v))

  valid_default :
      (dt : DataType) (cs : List Constraint) (d : Default)
      → validate_default_rule p dt cs (some d) ≡ ok tt
      → validate_default dt d ≡ ok tt
  unfolding validate_default_rule
  valid_default dt cs d h = ground arith

  -- The default of a reachable definition resolves, at every moment, to a value of the data type.
  pub default_for-yields :
      (a : Definition) (d : Default) (t : Moment)
      → Reachable a
      → a.fields.default_value ≡ some d
      → yields a.data_type (default_for t a) ≡ true
  unfolding default_for
  default_for-yields a d t r e = rw e (
      resolve_default-yields a.data_type t d (
        valid_default a.data_type a.fields.constraints d
          (rw (← e) (Reachable-IsValid a r).default_value)))
