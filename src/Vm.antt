-- ===== src/Vm.antt =====
-- The whole machine: src/vm/vm.c and the loop of apps/vm_main.c. `vm_t` is the processor with the
-- platform behind its bus. Load has `vm_load_bin`, and Main the rest of `main`.
pub mod Ticks
pub mod Valid
pub mod Load
pub mod Main
use risc_v_virtual_machine.Common.{field, to_word, leb}
use risc_v_virtual_machine.Memory.{memory_init, mem_base}
use risc_v_virtual_machine.Devices.Timer.{timer_reset, timer_tick, irq_timer, irq_software}
use risc_v_virtual_machine.Devices.Uart.{uart_init}
use risc_v_virtual_machine.Bus.{Platform, vm_bus}
use risc_v_virtual_machine.Cpu.{Machine}
use risc_v_virtual_machine.Cpu.Interrupts.{cpu_set_interrupt_pending}
use risc_v_virtual_machine.Cpu.Step.{cpu_init, cpu_reset, cpu_step}

abbrev pub Vm : Type 0
Vm = Machine Platform

-- The timer of a new `vm_t` is zero before it is reset.
unfoldable pub vm_init : Vm
vm_init = record {
  cpu = cpu_reset cpu_init mem_base;
  ctx = record {
    ram = memory_init;
    timer = timer_reset (record { msip = 0; mtime = 0; mtimecmp = 0 });
    uart = uart_init;
  };
}

unfoldable pub vm_tick : Vm → Vm
vm_tick vm =
    let platform = vm.ctx in
    let timer = timer_tick platform.timer in
    let cpu = cpu_set_interrupt_pending vm.cpu irq_software (field timer.msip 0 1) in
    let cpu = cpu_set_interrupt_pending cpu irq_timer (to_word (leb timer.mtimecmp timer.mtime)) in
    record { cpu = cpu; ctx = record platform { timer = timer } }

-- One round of the loop of `main`, but for the poll of the host every thousand rounds.
unfoldable pub vm_round : Vm → Vm
vm_round vm = vm_tick (cpu_step vm)
