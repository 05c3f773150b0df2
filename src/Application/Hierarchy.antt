-- ===== src/Application/Hierarchy.antt =====
-- Application.Hierarchy: the walks over type hierarchies of application/typedef/hierarchy.go. The repository's Get and
-- ListChildren are arguments.
pub mod Walks
pub mod Exact
pub mod Depth
use flexitype.Prelude.{
  ℕ, zero, suc, Bool, true, false, ◌||◌, Option, none, some, List, [], ◌∷◌, ◌++◌, ◌==◌,
  if◌then◌else◌,
}
use flexitype.Domain.Errors.{Result, ok, err, new_validation, ◌>>=◌}
use flexitype.Domain.Names.{Ulid}
use flexitype.Domain.TypeDef.{TypeDefinition}

-- What the walks use of the repository of type definitions.
pub record Types : Type 0 where
  pub get : Ulid → Result TypeDefinition
  pub list_children : Ulid → Result (List TypeDefinition)

abbrev pub max_hierarchy_depth : ℕ
max_hierarchy_depth = 10

-- seen[id], of the identifiers put in so far.
unfoldable pub is_seen : Ulid → List Ulid → Bool
is_seen id [] = false
is_seen id (x ∷ xs) = id == x || is_seen id xs

-- The rest of the loop of Ancestors, with `left` rounds left; `extends` is what the current type extends.
unfoldable pub climb : Types → ℕ → List Ulid → Option Ulid → Result (List TypeDefinition)
unfolding is_seen
climb types zero seen extends = err (new_validation "type hierarchy exceeds the supported depth")
climb types (suc left) seen none = ok []
climb types (suc left) seen (some parent_id) =
    if is_seen parent_id seen then err (new_validation "type hierarchy forms a cycle") else do
      parent ← types.get parent_id
      rest ← climb types left (parent_id ∷ seen) parent.extends_id
      ok (parent ∷ rest)

-- Ancestors: nearest parent first.
unfoldable pub ancestors : Types → TypeDefinition → Result (List TypeDefinition)
unfolding climb
ancestors types t = climb types max_hierarchy_depth (t.id ∷ []) t.extends_id

-- Chain.
unfoldable pub chain : Types → TypeDefinition → Result (List TypeDefinition)
unfolding ancestors
chain types t = do above ← ancestors types t; ok (t ∷ above)

-- Root.
unfoldable pub last_or : TypeDefinition → List TypeDefinition → TypeDefinition
last_or t [] = t
last_or t (a ∷ rest) = last_or a rest

unfoldable pub root : Types → TypeDefinition → Result TypeDefinition
unfolding ancestors last_or
root types t = do above ← ancestors types t; ok (last_or t above)

-- Whether a type of the list has the identifier.
unfoldable pub has_id : Ulid → List TypeDefinition → Bool
has_id id [] = false
has_id id (t ∷ ts) = t.id == id || has_id id ts

-- IsAncestorOrSelf.
unfoldable pub is_ancestor_or_self : Types → TypeDefinition → Ulid → Result Bool
unfolding ancestors has_id
is_ancestor_or_self types t candidate =
    if t.id == candidate then ok true else do above ← ancestors types t; ok (has_id candidate above)

-- The children that have not been seen; each is seen from then on.
unfoldable pub fresh : List Ulid → List TypeDefinition → List TypeDefinition
unfolding is_seen
fresh seen [] = []
fresh seen (child ∷ children) =
    let later = fresh seen children in
    let after = fresh (child.id ∷ seen) children in
    if is_seen child.id seen then later else child ∷ after

unfoldable pub ids : List TypeDefinition → List Ulid
ids [] = []
ids (t ∷ ts) = t.id ∷ ids ts

-- The types that a round of the loop of Descendants finds below its frontier.
unfoldable pub below : Types → List Ulid → List Ulid → Result (List TypeDefinition)
unfolding fresh ids
below types seen [] = ok []
below types seen (id ∷ frontier) = do
  children ← types.list_children id
  rest ← below types (ids (fresh seen children) ++ seen) frontier
  ok (fresh seen children ++ rest)

-- The rounds that are left. A round with an empty frontier finds nothing, so the loop may stop there.
unfoldable pub descend : Types → ℕ → List Ulid → List Ulid → Result (List TypeDefinition)
unfolding below ids
descend types zero seen frontier = ok []
descend types (suc left) seen [] = ok []
descend types (suc left) seen (id ∷ frontier) = do
  next ← below types seen (id ∷ frontier)
  rest ← descend types left (ids next ++ seen) (ids next)
  ok (next ++ rest)

-- Descendants.
unfoldable pub descendants : Types → TypeDefinition → Result (List TypeDefinition)
unfolding descend
descendants types t = descend types max_hierarchy_depth (t.id ∷ []) (t.id ∷ [])
