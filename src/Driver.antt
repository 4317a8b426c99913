-- ===== src/Driver.antt =====
-- The drivers of the first stage, driver/.
pub mod Calls
pub mod Device
pub mod Diskio
pub mod Elf
pub mod Printing
pub mod Spi
pub mod Uart
