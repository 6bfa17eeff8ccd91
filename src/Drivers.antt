-- ===== src/Drivers.antt =====
-- The drivers of the microcontrollers (rm32_stm32/src) below the interrupt handlers. Registers are what
-- the drivers write to them.
pub mod Phase
pub mod Flash
pub mod Comparator
pub mod Capture
