-- ===== src/Config.antt =====
-- pkg/config/config.go: the configuration record, the factory of storages, and the environment of
-- the child.
pub mod Kfile
pub mod CmdEnv
pub mod Service
