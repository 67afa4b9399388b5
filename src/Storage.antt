-- ===== src/Storage.antt =====
-- types/storage.go and pkg/storage: the Storage interface and its implementations.
pub mod Interface
pub mod Plain
pub mod Memory
pub mod Gorm
pub mod Rows
pub mod Sql
pub mod Response
pub mod Kv
pub mod Vault
