-- ===== src/Application/Query/Fields/Linked.antt =====
-- Application.Query.Fields.Linked: what a name stands for behind linked(), in application/query/binder.go.
use flexitype.Prelude.{ℕ, ◌≡◌, Bool, false, Option, none, some, arith, ◌==◌, if◌then◌else◌}
use flexitype.Bytes.{Bytes}
use flexitype.Keyed
use flexitype.Keyed.{get}
use flexitype.Domain.Errors.{Result, ok, err, new_validation, ◌>>=◌}
use flexitype.Domain.Errors.Outcomes.{WhenOk-ok}
use flexitype.Application.Access.{Access}
use flexitype.Application.Query.Bound.{Attr, RelDef}
use flexitype.Application.Query.Scope.{Schema, Scope, merge, scope_of, traversal_scope}
use flexitype.Application.Query.Scope.Merged.{
  or_else, clash, get-merge_attrs, has-merge_attrs, OfOneEnd, scope_of-OfOneEnd,
}
use flexitype.Application.Query.Fields.{found, resolve_entity}
use flexitype.Fql.Ast.{dir_any}

-- What a name stands for, from what it stands for at the parent and at the child.
unfoldable pub of_ends : Option Attr → Option Attr → Result (Attr × Bool)
of_ends none none = err (new_validation "unknown attribute")
of_ends (some p) none = ok (p, false)
of_ends none (some c) = ok (c, false)
of_ends (some p) (some c) =
    if p.id == c.id
    then ok (p, false)
    else err (new_validation "declared on both endpoints of this relationship")

resolve_entity-merge :
    (name : Bytes) (p c : Scope)
    → OfOneEnd p
    → OfOneEnd c
    → resolve_entity name (merge c p) ≡ of_ends (get name p.attrs) (get name c.attrs)
unfolding resolve_entity merge found of_ends or_else clash Keyed.has get
resolve_entity-merge name p c (mp, ap) (mc, ac) =
    ground (arith, get-merge_attrs name c.attrs p mc, has-merge_attrs name c.attrs p mc)

-- Where linked() crosses a relationship between two types, a name that one endpoint has stands for the attribute of that
-- endpoint; a name that both have stands for an attribute if it is the same one at both, and is refused otherwise.
pub linked-resolves :
    (access : Access) (schema : Schema) (def : RelDef) (depth : ℕ) (name : Bytes) {p c : Scope}
    → (def.child_type_id == def.parent_type_id) ≡ false
    → scope_of access schema depth def.parent_type_id ≡ ok p
    → scope_of access schema depth def.child_type_id ≡ ok c
    → (traversal_scope access schema dir_any def depth >>= resolve_entity name)
      ≡ of_ends (get name p.attrs) (get name c.attrs)
unfolding traversal_scope
linked-resolves access schema def depth name {p} {c} h ep ec =
    rw (ep, h, ec)
      (resolve_entity-merge name p c
        (WhenOk-ok OfOneEnd _ p (scope_of-OfOneEnd access schema depth def.parent_type_id) ep)
        (WhenOk-ok OfOneEnd _ c (scope_of-OfOneEnd access schema depth def.child_type_id) ec))
