-- ===== src/KeyStore.antt =====
-- runtime/key_store.py: the wrapped database key, its rotation, and recovery after a crash.
pub mod Types
pub mod Disk
pub mod Envelope
pub mod Copies
pub mod Operations
pub mod Recoverable
pub mod Recovering
pub mod Unlocking
pub mod Rotating
pub mod Returning
pub mod Sessions
pub mod Passphrases
pub mod Importing
pub mod Tests
