-- ===== src/Cpu/Exec/Reserved.antt =====
-- Load-reserved, a store in between, and store-conditional: `lr_d` and `sc_d` of
-- src/cpu/instructions/dispatchers/a_extension.c with translation off.
use risc_v_virtual_machine.Common.{ℕ, ◌+◌}
use risc_v_virtual_machine.Common.{Bool, true, ltb, ◌==◌, ◌&&◌}
use risc_v_virtual_machine.Memory.Bytes.{size}
use risc_v_virtual_machine.Bus.{Platform, vm_bus, vm_bus_read64}
use risc_v_virtual_machine.Cpu.{Cpu, Machine, cpu_read_reg, cpu_write_reg}
use risc_v_virtual_machine.Cpu.Decode.{AType}
use risc_v_virtual_machine.Cpu.Paging.{}

-- `lr_d` gives the word at an aligned address and reserves its eight bytes.
reserved : Machine Platform → AType → Machine Platform
reserved m load =
    let address = cpu_read_reg m.cpu load.rs1 in
    record m {
      cpu = record (cpu_write_reg m.cpu load.rd (vm_bus_read64 m.ctx address).0) {
        reservation = record { valid = true; phys_addr = address; size = 8 };
      };
    }

-- The reservation that `sc_d` needs.
abbrev matches : Cpu → ℕ → Bool
matches cpu address =
    cpu.reservation.phys_addr == address && cpu.reservation.valid && cpu.reservation.size == 8

-- Eight bytes from `a` and `n` from `b` share one.
abbrev pub overlaps : ℕ → ℕ → ℕ → Bool
overlaps a b n = ltb a (b + n) && ltb b (a + 8)
