-- ===== src/Lib.antt =====
-- A RISC-V virtual machine (RV64IMA with the privileged modes and Sv39): the processor, its memory
-- and its devices as executable functions, and theorems about them.
--
-- The programs. `main` (apps/vm_main.c) steps the processor and then ticks the devices for ever. A
-- step (src/cpu/cpu.c) fetches, decodes and executes one instruction, and then takes a pending
-- interrupt. All accesses to memory go through address translation (src/cpu/paging.c) and the bus
-- (`bus_t`), whose functions (src/memory/bus.c) send a physical address to RAM, the timer or the
-- serial port. Traps (src/cpu/trap.c) and the control and status registers (src/cpu/csrs) are
-- shared by all of them. The debugger (tools/debugger) is a program of its own, which reads
-- commands and steps the same machine without its clock.
--
-- The files.
--   Common            tests, words, arrays, signed integers; no code of the program
--   Bits              bit operations as arithmetic, digits of a word
--   Memory            src/memory/memory.c; Bytes, Stores and RoundTrip prove it
--   Devices/Timer     src/devices/timer.c; Laws proves it
--   Devices/Uart      src/devices/uart.c; Valid, Fifo and Refine prove it
--   Bus               include/cpu/bus_def.h as an interface, src/memory/bus.c; Routing and
--                     Valid prove it
--   Cpu               include/cpu/cpu.h, the registers and the reservation of src/cpu/cpu.c;
--                     Registers proves them
--   Cpu/Csr           src/cpu/csrs: Names, Handlers and Table; BitLaws, Access and Frame prove
--                     them
--   Cpu/Trap          src/cpu/trap.c; Return, Return/RoundTrip and Return/Entry prove it
--   Cpu/Interrupts    the interrupts of src/cpu/cpu.c; Priority proves them
--   Cpu/Paging        src/cpu/paging.c; Address, Walk, Leaf and Sv39 prove it
--   Cpu/Access        loads, stores and the fetch of src/cpu/cpu.c; Untranslated proves them
--   Cpu/Decode        src/cpu/instructions/decoding.c; Encode proves it
--   Cpu/Exec          src/cpu/instructions/dispatchers, a module for each file or two; Reserved and
--                     MExtension/Unsigned prove a part
--   Cpu/Step          `cpu_step` and src/cpu/instructions/*type.c
--   Vm                src/vm/vm.c; Ticks proves it. Load is `vm_load_bin`, with
--                     Load/Valid and Load/Overruns that prove it; Main is apps/vm_main.c,
--                     with the start and the loop, and Main/Valid proves it on Cpu/Fits and Valid
--   Cpu/Fits          proves the widths of the words of the processor
--   Cpu/Confined      proves what an instruction, a step and a run do in user mode
--   Debugger          tools/debugger: Text and Numbers are what it uses of the standard library on
--                     text, Breakpoints and Tables the files of these names, Disassembler is
--                     disassembler.c, with Names that proves it
--   Debugger/Shell    tools/debugger/src/cli.c: Inspect, Control and Storage are the commands,
--                     Dispatch is the rest and debugger_main.c; Control/Run, Storage/Load and
--                     Dispatch/Lines prove them
--   Examples          the theorems at concrete inputs
--
-- How the state is modelled. A function that changes an object takes it and gives it back, under the
-- name that it has in C. `Cpu` is `cpu_t` without the pointer to the bus: the bus is an instance
-- argument, the interface `Bus S` over a context `S`, and `Machine S` is the processor with the
-- context. The platform (RAM, timer, serial port) is the context that `vm_t` gives. Registers, CSRs
-- and RAM are functions from the index, of which only the indices that the program uses matter. A
-- `uint64_t` is a natural number, with the wrap-around of each operation written out; a signed
-- view is an integer. An overflow of `int32_t` in ADDW, SUBW and MULW, undefined in C, wraps.
-- The table of CSRs is a constant, the one that the load functions leave. What `poll` and `read`
-- give of the host is the argument `HostInput`; what `putchar` sends is the field `sent`.
--
-- Loops. The walk of the page tables is recursion on the level, at most three rounds; the choice of
-- an interrupt is recursion on the list of causes. The loop of `vm_load_bin` runs on fuel, one
-- round more than the file has bytes, and each round but the last reads a byte at least. The loop
-- of `main` has no end; its rounds are those that a list of inputs of the host gives. The loops of
-- the debugger's `run` and `next` end only if the machine comes to the address, so they run on
-- fuel, and `running` is the outcome if it is not enough; the same fuel bounds the depth of the
-- scripts that run scripts. Its other loops are recursion on a count, on a text or on its lines.
--
-- Not modelled: the messages of log and stderr, `memory_free`, the opening and
-- reading of files, whose contents are arguments, the texts of the debugger's messages, the tests,
-- and the firmware and the device tree under src/vm. A load that writes beyond the mapping of RAM, in
-- `vm_load_bin` or in the debugger, is `none`, and the start of `main` is then `undefined`. So is
-- the outcome where C leaves open what the debugger does (a 65th breakpoint, a 17th word, a file
-- that ends behind RAM, no file to reload). A script or a loaded file is never the `save.dump` of
-- the same session.
pub mod Common
pub mod Bits
pub mod Memory
pub mod Devices
pub mod Bus
pub mod Cpu
pub mod Vm
pub mod Debugger
pub mod Examples
