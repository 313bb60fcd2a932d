-- ===== src/State.antt =====
-- src/state.rs: the accounts that the library decodes, and what it computes from them.
pub mod Reader
pub mod Pool
pub mod Fees
pub mod Config
pub mod Volume
pub mod Sharing
