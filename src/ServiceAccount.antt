-- ===== src/ServiceAccount.antt =====
-- ServiceAccount: pkg/serviceaccount, accounts and the cache of successful authentications.
pub mod Account
pub mod Token
pub mod Roles
pub mod Cache
