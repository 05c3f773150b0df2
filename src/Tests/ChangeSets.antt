-- ===== src/Tests/ChangeSets.antt =====
-- Tests.ChangeSets: a change-set that is written, reviewed and published, with an edit that comes too late.
use Prim.{tt}
use mathlib.Core.List.{Memᴰ}
use flexitype.Prelude.{◌≡◌, refl, Bool, true, false, inl, [], ◌∷◌, none, some}
use flexitype.Prelude.Int.{pos}
use flexitype.Bytes.{codes, eq_bytes}
use flexitype.Domain.Errors.{ok, new_validation, Error}
use flexitype.Domain.Names.{default_tenant}
use flexitype.Application.ChangeSet.{
  ChangeSet, Mutation, mutation_set, draft, in_review, approved, publishing, published, rejected,
  add_mutation, submit, approve, reject, create, edited, edit, store_update, claim, finalise,
  publishable, publish,
}
use flexitype.Application.ChangeSet.Erasure.{memory, redact, skeleton}
use flexitype.Application.ChangeSet.World.{
  World, Step, erases, edits, claims_set, finalises, Reaches, start, next, fresh,
  update-reads-stored, ending-owns-claim,
}
use flexitype.Application.ChangeSet.Integrity.{
  Keeps, landed-Keeps, separation_of_duties, has_approval,
}
use flexitype.Application.ChangeSet.Publish.{publish_at_once, publish_refines, rejected_stays}

abbrev price : Mutation
price = record {
  kind = mutation_set;
  attribute_definition_id = codes "price";
  entity_id = codes "sku-1";
  type_definition_id = [];
  locale = [];
  channel = [];
  value = codes "10";
  redacted = false;
  erased = false;
}

abbrev opened : ChangeSet
opened = record {
  id = 1;
  tenant_id = default_tenant;
  name = codes "spring";
  state = draft;
  require_approval = true;
  author = codes "ann";
  approver = [];
  mutations = [];
  publish_at = none;
  created_at = pos 0;
  updated_at = pos 0;
  published_at = none;
  version = 1;
}

abbrev filled : ChangeSet
filled = record opened { mutations = price ∷ []; updated_at = pos 1; version = 2 }

abbrev submitted : ChangeSet
submitted = record filled { state = in_review; updated_at = pos 2; version = 3 }

abbrev passed : ChangeSet
passed = record submitted {
  state = approved;
  approver = codes "bob";
  updated_at = pos 3;
  version = 4;
}

abbrev claimed : ChangeSet
claimed = record passed { state = publishing; updated_at = pos 4; version = 5 }

abbrev done : ChangeSet
done = record claimed {
  state = published;
  published_at = some (pos 5);
  updated_at = pos 5;
  version = 6;
}

abbrev w1 : World
w1 = fresh opened

abbrev w2 : World
w2 = record { stored = filled; past = opened ∷ []; claims = [] }

abbrev w3 : World
w3 = record { stored = submitted; past = filled ∷ opened ∷ []; claims = [] }

abbrev w4 : World
w4 = record { stored = passed; past = submitted ∷ filled ∷ opened ∷ []; claims = [] }

abbrev w5 : World
w5 = record {
  stored = claimed;
  past = passed ∷ submitted ∷ filled ∷ opened ∷ [];
  claims = record { read = passed; claimed = claimed } ∷ [];
}

abbrev w6 : World
w6 = record {
  stored = done;
  past = claimed ∷ passed ∷ submitted ∷ filled ∷ opened ∷ [];
  claims = record { read = passed; claimed = claimed } ∷ [];
}

step1 : Step w1 w2
unfolding edited store_update edit eq_bytes
step1 = edits (add_mutation price (ok tt)) (pos 1) opened _ filled (Memᴰ.head refl) refl refl

step2 : Step w2 w3
unfolding edited store_update edit eq_bytes
step2 = edits submit (pos 2) filled _ submitted (Memᴰ.head refl) refl refl

step3 : Step w3 w4
unfolding edited store_update edit eq_bytes
step3 = edits (approve (codes "bob")) (pos 3) submitted _ passed (Memᴰ.head refl) refl refl

step4 : Step w4 w5
unfolding claim store_update publishable eq_bytes
step4 = claims_set (pos 4) passed _ claimed (Memᴰ.head refl) refl refl

step5 : Step w5 w6
unfolding finalise store_update eq_bytes
step5 = finalises (pos 5) (record { read = passed; claimed = claimed }) done (Memᴰ.head refl) refl

to_w5 : Reaches w1 w5
to_w5 = next w4 w5 (next w3 w4 (next w2 w3 (next w1 w2 start step1) step2) step3) step4

opened_by_create :
    create 1 default_tenant (codes "ann") (codes "spring") true none (pos 0) ≡ ok opened
unfolding create
opened_by_create = refl

separation_of_duties_example : has_approval claimed ≡ true
separation_of_duties_example =
    separation_of_duties 1 default_tenant (codes "ann") (codes "spring") true none (pos 0) opened w5
      opened_by_create to_w5 refl

landed-Keeps_example : Keeps claimed done
landed-Keeps_example = landed-Keeps opened w5 w6 to_w5 step5

-- The value is erased behind the back of a caller that has read the set, whose claim lands all the same and brings the
-- value back.
abbrev about_sku : Mutation → Bool
about_sku m = eq_bytes m.entity_id (codes "sku-1")

abbrev purged : ChangeSet
purged = record passed { mutations = record price { value = []; erased = true } ∷ [] }

abbrev w4_purged : World
w4_purged = record {
  stored = purged;
  past = passed ∷ submitted ∷ filled ∷ opened ∷ [];
  claims = [];
}

purge-Step : Step w4 w4_purged
unfolding redact eq_bytes
purge-Step = erases memory default_tenant about_sku

update-reads-stored_example : skeleton passed ≡ skeleton purged
unfolding store_update
update-reads-stored_example =
    update-reads-stored opened w4_purged passed
      (record passed { state = publishing; updated_at = pos 4 }) claimed
      (next w4 w4_purged (next w3 w4 (next w2 w3 (next w1 w2 start step1) step2) step3) purge-Step)
      (Memᴰ.tail (Memᴰ.head refl)) refl refl

ending-owns-claim_example : skeleton claimed ≡ skeleton w5.stored
unfolding store_update finalise
ending-owns-claim_example =
    ending-owns-claim opened w5 (record { read = passed; claimed = claimed }) (pos 5) done to_w5
      (Memᴰ.head refl) (inl refl)

publish_refines_example :
    publish (pos 4) (pos 5) passed passed (ok tt)
    ≡ publish_at_once (pos 5) passed (publishable (pos 4) passed) (ok tt)
publish_refines_example = publish_refines (pos 4) (pos 5) passed (ok tt)

abbrev refused : Error
refused = new_validation "value violates constraints"

publishable-passed : publishable (pos 4) passed ≡ ok tt
unfolding publishable
publishable-passed = refl

abbrev turned_down : ChangeSet
turned_down = record submitted { state = rejected; updated_at = pos 3; version = 4 }

abbrev once_more : ChangeSet
once_more = record turned_down { updated_at = pos 4; version = 5 }

abbrev v4 : World
v4 = record { stored = turned_down; past = submitted ∷ filled ∷ opened ∷ []; claims = [] }

abbrev v5 : World
v5 = record {
  stored = once_more;
  past = turned_down ∷ submitted ∷ filled ∷ opened ∷ [];
  claims = [];
}

reject-Step : Step w3 v4
unfolding edited store_update edit eq_bytes
reject-Step = edits reject (pos 3) submitted _ turned_down (Memᴰ.head refl) refl refl

reject_again : Step v4 v5
unfolding edited store_update edit eq_bytes
reject_again = edits reject (pos 4) turned_down _ once_more (Memᴰ.head refl) refl refl

rejected_stays_example : once_more.state ≡ rejected
rejected_stays_example =
    rejected_stays opened v4 v5 (next w3 v4 (next w2 w3 (next w1 w2 start step1) step2) reject-Step)
      reject_again refl
