-- ===== src/Domain/Values.antt =====
-- Domain.Values: the value objects of domain/valueobjects.
pub mod DataType
pub mod Float
pub mod Decimal
pub mod Value
pub mod Parse
pub mod Dynamic
