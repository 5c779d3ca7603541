-- ===== src/Devices.antt =====
-- The memory-mapped devices of the machine: include/devices and src/devices.
pub mod Timer
pub mod Uart
