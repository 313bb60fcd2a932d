-- ===== src/Examples.antt =====
-- The programs of examples, which run the library over the network.
pub mod Settings
pub mod BatchBuy
pub mod Runner
pub mod Loads
pub mod Simulations
pub mod Layout
