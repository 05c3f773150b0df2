-- ===== src/Domain/Relationship.antt =====
-- Domain.Relationship: relationship definitions and links, domain/relationship.
pub mod Definition
pub mod Link
