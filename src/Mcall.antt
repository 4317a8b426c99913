-- ===== src/Mcall.antt =====
-- The machine calls and the device queues, bbl/mtrap.c.
pub mod State
pub mod Chains
pub mod Queues
pub mod Calls
pub mod Traps
pub mod Signals
pub mod Requests
mod Tests
