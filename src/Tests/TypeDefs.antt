-- ===== src/Tests/TypeDefs.antt =====
-- Tests.TypeDefs: a life of a type definition.
use flexitype.Prelude.{◌≡◌, List, [], ◌∷◌, none, some}
use flexitype.Prelude.Int.{pos}
use flexitype.Bytes.{codes}
use flexitype.Domain.Names.{default_tenant}
use flexitype.Domain.TypeDef.{TypeDefinition, entity}
use flexitype.Domain.TypeDef.Histories.{
  Call, update_call, archive_call, restore_call, run, apply, replay-run,
}
use mathlib.Core.List.{foldl}

abbrev pub product : TypeDefinition
product = record {
  id = 1;
  tenant_id = default_tenant;
  kind = entity;
  internal_name = codes "product";
  display_name = codes "Product";
  description = [];
  extends_id = none;
  version = 1;
  created_at = pos 10;
  updated_at = pos 10;
  archived_at = none;
}

-- The second change has no effect, and the third comes while the type is archived.
abbrev life : List Call
life =
    update_call (codes "Article") [] (pos 20)
    ∷ update_call (codes "Article") [] (pos 30)
    ∷ archive_call (pos 40)
    ∷ update_call (codes "Item") [] (pos 50)
    ∷ restore_call (pos 60)
    ∷ []

replay-run_example : foldl apply product (run product life).1 ≡ (run product life).0
replay-run_example = replay-run product life

abbrev retired : TypeDefinition
retired = record product { archived_at = some (pos 15) }
