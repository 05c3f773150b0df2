-- ===== src/Domain/AttributeValue/Pinned.antt =====
-- Domain.AttributeValue.Pinned: a stored value satisfies the definition whose version it is pinned to.
use Prim.{tt}
use flexitype.Prelude.{◌≡◌, refl, false, ◌&&◌, not, Option, none, some, List, ◌==◌, arith}
use flexitype.Prelude.Int.{ℤ}
use flexitype.Domain.Errors.{ok, new_validation}
use flexitype.Domain.Errors.Outcomes.{WhenOk, WhenOk-ok, WhenOk-guard, WhenOk-then, WhenOk-if}
use flexitype.Domain.Names.{Ulid, EntityId, is_empty}
use flexitype.Domain.Values.Value.{Platform, Value, is_zero, equal}
use flexitype.Domain.Attribute.Definition.{Definition, validate_value}
use flexitype.Domain.AttributeValue.{
  AttributeValue, Scope, Event, is_archived, create, new, new_of_type, update_value, remove,
}

-- `Known` are the definitions that the use cases load.
module _ (p : Platform) (Known : Definition → Type 0) where
  -- A value that New has returned, or a successful call has left.
  pub data Reachable : AttributeValue → Type 0 where
    by_new :
        (id : Ulid) (def : Definition) (entity_type : Option Ulid) (entity_id : EntityId)
        (scope : Scope) (v : Value) (now : ℤ) (av : AttributeValue) (es : List Event)
        → Known def
        → new p id def entity_type entity_id scope v now ≡ ok (av, es)
        → Reachable av
    by_update :
        (def : Definition) (v : Value) (now : ℤ) (au av : AttributeValue) (es : List Event)
        → Known def
        → Reachable au
        → update_value p def v now au ≡ ok (av, es)
        → Reachable av
    by_remove :
        (now : ℤ) (au av : AttributeValue) (es : List Event)
        → Reachable au
        → remove now au ≡ ok (av, es)
        → Reachable av

  -- Some definition of the attribute, at the version that the value is pinned to, accepts the value.
  pub record IsPinned (av : AttributeValue) : Type 0 where
    pub definition : Definition
    pub known : Known definition
    pub attribute : definition.id ≡ av.attribute_definition_id
    pub version : definition.version ≡ av.definition_version
    pub accepted : validate_value p definition av.value ≡ ok tt
    pub present : is_zero av.value ≡ false

  abbrev LeavesPinned : AttributeValue × List Event → Type 0
  LeavesPinned r = IsPinned r.0

  new-IsPinned :
      (id : Ulid) (def : Definition) (entity_type : Option Ulid) (entity_id : EntityId)
      (scope : Scope) (v : Value) (now : ℤ)
      → Known def
      → WhenOk LeavesPinned (new_of_type p id def entity_type entity_id scope v now)
  unfolding new_of_type create
  new-IsPinned id def none entity_id scope v now k = tt
  new-IsPinned id def (some entity_type) entity_id scope v now k =
      WhenOk-guard LeavesPinned (is_zero v) (new_validation "value is required") _ λ present.
        WhenOk-then LeavesPinned (validate_value p def v)
          (ok (create id def entity_type entity_id scope v now))
          λ accepted. record {
            definition = def;
            known = k;
            attribute = refl;
            version = refl;
            accepted = accepted;
            present = present;
          }

  update-IsPinned :
      (def : Definition) (v : Value) (now : ℤ) (av : AttributeValue)
      → Known def
      → IsPinned av
      → WhenOk LeavesPinned (update_value p def v now av)
  unfolding update_value
  update-IsPinned def v now av k pin = WhenOk-guard LeavesPinned (is_archived av) _ _ λ live.
      WhenOk-guard LeavesPinned (not (def.id == av.attribute_definition_id)) _ _ λ mine.
        WhenOk-guard LeavesPinned (is_zero v) _ _ λ present.
          WhenOk-then LeavesPinned (validate_value p def v) _ λ accepted.
            WhenOk-if LeavesPinned (equal p av.value v && av.definition_version == def.version) _ _
              (λ same. pin)
              λ differs. record {
                definition = def;
                known = k;
                attribute = ground arith;
                version = refl;
                accepted = accepted;
                present = present;
              }

  remove-IsPinned :
      (now : ℤ) (av : AttributeValue) → IsPinned av → WhenOk LeavesPinned (remove now av)
  unfolding remove
  remove-IsPinned now av pin = WhenOk-guard LeavesPinned (is_archived av) _ _ λ live. record {
    definition = pin.definition;
    known = pin.known;
    attribute = pin.attribute;
    version = pin.version;
    accepted = pin.accepted;
    present = pin.present;
  }

  -- Every stored value that New, UpdateValue and Remove reach, from definitions that are known, is accepted by a known
  -- definition of its attribute that has the version that the value is pinned to, and is not the zero value.
  pub Reachable-IsPinned : (av : AttributeValue) → Reachable av → IsPinned av
  unfolding new
  Reachable-IsPinned _ (by_new id def entity_type entity_id scope v now av es k h) =
      WhenOk-ok LeavesPinned _ (av, es)
        (WhenOk-guard LeavesPinned (is_empty entity_id) _ _
          λ named. new-IsPinned id def entity_type entity_id scope v now k)
        h
  Reachable-IsPinned _ (by_update def v now au av es k r h) =
      WhenOk-ok LeavesPinned _ (av, es) (update-IsPinned def v now au k (Reachable-IsPinned au r)) h
  Reachable-IsPinned _ (by_remove now au av es r h) =
      WhenOk-ok LeavesPinned _ (av, es) (remove-IsPinned now au (Reachable-IsPinned au r)) h
