-- ===== src/Domain/Attribute.antt =====
-- Domain.Attribute: the Definition aggregate of domain/attribute, its constraints first.
pub mod Constraint
pub mod Computed
pub mod Definition
