-- ===== src/Instruction.antt =====
-- src/instruction.rs: the arguments and the account lists of every instruction.
pub mod Args
pub mod Swap
pub mod Liquidity
pub mod Volume
pub mod Creator
