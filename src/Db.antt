-- ===== src/Db.antt =====
-- Db: what pkg/db decides without a database.
pub mod Pagination
pub mod Keyset
