-- ===== src/Domain.antt =====
-- Domain: the aggregates and value objects of domain/.
pub mod Errors
pub mod Names
pub mod TypeDef
pub mod Values
pub mod Attribute
pub mod Dependency
pub mod Relationship
pub mod AttributeValue
