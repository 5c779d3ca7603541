-- ===== src/Debugger.antt =====
-- The debugger: tools/debugger.
pub mod Text
pub mod Numbers
pub mod Breakpoints
pub mod Tables
pub mod Disassembler
pub mod Shell
