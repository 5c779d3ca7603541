-- ===== src/Cpu/Exec.antt =====
-- The instructions: src/cpu/instructions and its dispatchers, a module for each dispatcher.
pub mod Op
pub mod Op32
pub mod OpImm
pub mod OpImm32
pub mod MExtension
pub mod Branch
pub mod Jumps
pub mod Load
pub mod Store
pub mod System
pub mod AExtension
pub mod Reserved
