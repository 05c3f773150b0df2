-- ===== src/Application.antt =====
-- Application: the use cases of application/.
pub mod Access
pub mod Hierarchy
pub mod Unit
pub mod Query
pub mod ChangeSet
