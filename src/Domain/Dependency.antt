-- ===== src/Domain/Dependency.antt =====
-- Domain.Dependency: the rules between attributes, domain/dependency.
pub mod Condition
pub mod Rule
pub mod Effective
