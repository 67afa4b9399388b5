-- ===== src/Commands.antt =====
-- The command-line tools of cmd/, over any storage.
pub mod Kaisave
pub mod Kaidump
pub mod Kaienv
pub mod Kaidel
pub mod SetupStore
pub mod ReadOnly
pub mod Main
