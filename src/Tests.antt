-- ===== src/Tests.antt =====
-- Tests: runs of the model, and the theorems at concrete inputs.
mod Formulas
mod Accounts
mod Binding
mod Pages
mod Queries
mod TypeDefs
mod Attributes
mod ChangeSets
mod Dependencies
mod Relationships
mod AttributeValues
