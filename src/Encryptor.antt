-- ===== src/Encryptor.antt =====
-- pkg/encryptor: the interface and its three implementations.
mod Interface
pub mod Plaintext
pub mod Aes
pub mod Transit
pub use Interface.*
