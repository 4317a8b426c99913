-- ===== src/Vm.antt =====
-- Virtual memory, bbl/vm.c, in a 64-bit build.
pub mod Pte
pub mod State
pub mod Walk
pub mod Pages
pub mod Mapping
pub mod Init
pub mod Bounds
pub mod Faults
mod Tests
