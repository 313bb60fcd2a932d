-- ===== src/Util.antt =====
-- src/util.rs: derived addresses, recipients, associated accounts, and the Jito sender.
pub mod Seeds
pub mod Pda
pub mod Recipients
pub mod Load
pub mod Jito
