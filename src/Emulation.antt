-- ===== src/Emulation.antt =====
-- The emulation of instructions in machine mode, bbl/emulation.c with the macros of bbl/mtrap.h.
pub mod Csr
pub mod Decode
pub mod Float
pub mod Encoding
pub mod Memory
pub mod State
mod Tests
pub mod Trap
pub mod Misaligned
pub mod MulDiv
