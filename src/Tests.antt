-- ===== src/Tests.antt =====
-- Runs of the model at concrete inputs, and the properties applied at them.
pub mod Numbers
pub mod Accounts
pub mod Instructions
pub mod StandIn
pub mod Store
pub mod Calls
pub mod Programs
pub mod Trials
pub mod Curve
