-- ===== src/Application/Query.antt =====
-- Application.Query: the binding of FQL queries to the schema, of application/query.
pub mod Bound
pub mod Scope
pub mod Literals
pub mod Fields
pub mod Binder
