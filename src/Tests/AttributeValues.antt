-- ===== src/Tests/AttributeValues.antt =====
-- Tests.AttributeValues: a rating that is stored and removed.
use flexitype.Prelude.{◌≡◌, refl, List, [], ◌∷◌, none, some}
use flexitype.Prelude.Int.{pos}
use flexitype.Bytes.{codes}
use flexitype.Domain.Errors.{ok}
use flexitype.Domain.Names.{default_tenant}
use flexitype.Domain.Attribute.Definition.{Definition, validate_value}
use flexitype.Domain.Values.DataType.{eq_type}
use flexitype.Domain.Values.Value.{Value, integer_value, is_zero, has_type, compare}
use flexitype.Domain.AttributeValue.{AttributeValue, Event, set, removed, new, remove}
use flexitype.Domain.AttributeValue.Pinned.{by_new, by_remove, IsPinned, Reachable-IsPinned}
use flexitype.Tests.Attributes.{plain, rating}

abbrev five : Value
five = integer_value (pos 5)

abbrev stored : AttributeValue
stored = record {
  id = 50;
  tenant_id = default_tenant;
  type_definition_id = 1;
  attribute_definition_id = 7;
  entity_id = codes "sku-1";
  scope = record { locale = []; channel = [] };
  value = five;
  definition_version = 1;
  created_at = pos 1;
  updated_at = pos 1;
  archived_at = none;
}

abbrev gone : AttributeValue
gone = record stored { archived_at = some (pos 2); updated_at = pos 2 }

abbrev set_events : List Event
set_events = set 50 default_tenant 1 7 (codes "sku-1") stored.scope five 1 (pos 1) ∷ []

abbrev removed_events : List Event
removed_events = removed 50 default_tenant 1 7 (codes "sku-1") five (pos 2) ∷ []

new-stored :
    new plain 50 rating (some 1) (codes "sku-1") stored.scope five (pos 1) ≡ ok (stored, set_events)
unfolding new is_zero validate_value has_type eq_type compare
new-stored = refl

remove-stored : remove (pos 2) stored ≡ ok (gone, removed_events)
unfolding remove
remove-stored = refl

abbrev Loaded : Definition → Type 0
Loaded d = d ≡ rating

Reachable-IsPinned_example : IsPinned plain Loaded gone
Reachable-IsPinned_example = Reachable-IsPinned plain Loaded gone (
    by_remove (pos 2) stored gone removed_events
      (by_new 50 rating (some 1) (codes "sku-1") stored.scope five (pos 1) stored set_events refl
        new-stored)
      remove-stored)
