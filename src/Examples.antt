-- ===== src/Examples.antt =====
-- The theorems at concrete inputs.
mod Devices
mod Traps
mod Translation
mod Execution
mod User
mod Machine
mod Debugger
