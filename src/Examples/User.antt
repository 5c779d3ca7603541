-- ===== src/Examples/User.antt =====
-- Instructions in user mode at concrete inputs.
use risc_v_virtual_machine.Common.{◌≡◌, refl, false, if◌then◌else◌, ◌==◌}
use risc_v_virtual_machine.Memory.{mem_read32, valid_access}
use risc_v_virtual_machine.Bus.{Platform, vm_bus, vm_bus_read32}
use risc_v_virtual_machine.Devices.Uart.{uart_init}
use risc_v_virtual_machine.Cpu.{Machine, cpu_read_reg, cpu_write_reg}
use risc_v_virtual_machine.Cpu.Access.{cpu_fetch}
use risc_v_virtual_machine.Cpu.Paging.{translate_address}
use risc_v_virtual_machine.Cpu.Decode.{decode_i, sign_extend}
use risc_v_virtual_machine.Cpu.Exec.OpImm.{dispatch_op_imm, addi}
use risc_v_virtual_machine.Cpu.Interrupts.{cpu_check_interrupts}
use risc_v_virtual_machine.Cpu.Step.{
  increment_pc, cpu_begin, cpu_finish, cpu_step, dispatch_instruction, execute_i,
}
use risc_v_virtual_machine.Cpu.Confined.{Confined}
use risc_v_virtual_machine.Cpu.Confined.User.{dispatch_instruction-Confined}
use risc_v_virtual_machine.Cpu.Confined.Step.{Isolated, started, stepped, Runs-Isolated}

-- In user mode, with `addi x1, x0, 5` at the program counter.
abbrev pub user_machine : Machine Platform
user_machine = record {
  cpu = record {
    regs = λ _. 0;
    csrs = λ _. 0;
    pc = 0x80000000;
    priviledge = 0;
    reservation = record { valid = false; phys_addr = 0; size = 0 };
    trap_taken = false;
    pc_written = false;
  };
  ctx = record {
    ram = record { mem = λ i. if i == 0 then 0x93 else if i == 2 then 0x50 else 0 };
    timer = record { msip = 0; mtime = 0; mtimecmp = 0 };
    uart = uart_init;
  };
}

pub steps_without_trap :
    ((cpu_step user_machine).cpu.trap_taken ≡ false) × ((cpu_step user_machine).cpu.pc ≡ 0x80000004)
unfolding cpu_step cpu_begin cpu_fetch translate_address vm_bus_read32 mem_read32 valid_access
    dispatch_instruction execute_i decode_i sign_extend dispatch_op_imm addi cpu_read_reg
    cpu_write_reg cpu_finish increment_pc cpu_check_interrupts
steps_without_trap = (refl, refl)

dispatch_instruction-Confined_example :
    Confined user_machine.cpu (dispatch_instruction user_machine 0x18001073).cpu
dispatch_instruction-Confined_example = dispatch_instruction-Confined user_machine 0x18001073 refl

Runs-Isolated_example : Isolated user_machine.cpu (cpu_step user_machine).cpu
Runs-Isolated_example = Runs-Isolated refl (stepped started steps_without_trap.0)
