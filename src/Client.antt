-- ===== src/Client.antt =====
-- src/client.rs: what the client reads from the chain, and the instruction lists that it builds.
pub mod Chain
pub mod Balance
pub mod Trade
pub mod Creator
pub mod Volume
pub mod Send
