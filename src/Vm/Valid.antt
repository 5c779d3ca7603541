-- ===== src/Vm/Valid.antt =====
-- The invariant of the machine of src/vm/vm.c: the widths of its registers and cells.
use risc_v_virtual_machine.Common.{ℕ, arith, ◌<◌, is_set}
use risc_v_virtual_machine.Bits.{bit_or-lt, bit_and-lt}
use risc_v_virtual_machine.Devices.Timer.{timer_tick}
use risc_v_virtual_machine.Bus.{Platform, vm_bus}
use risc_v_virtual_machine.Cpu.{Cpu}
use risc_v_virtual_machine.Cpu.Csr.Names
use risc_v_virtual_machine.Cpu.Csr.BitLaws.{two_pow-lt}
use risc_v_virtual_machine.Cpu.Interrupts.{cpu_set_interrupt_pending}
use risc_v_virtual_machine.Cpu.Step.{cpu_step}
use risc_v_virtual_machine.Cpu.Fits.{Fits, Fits-if, set_csr-Fits}
use risc_v_virtual_machine.Cpu.Fits.Memory.{Sound, Valid}
use risc_v_virtual_machine.Cpu.Fits.Step.{cpu_step-Valid}
use risc_v_virtual_machine.Vm.{Vm, vm_tick, vm_round}
use risc_v_virtual_machine.Bus.Valid.{
  IsPlatform, with_timer, vm_bus_read8-Answer, vm_bus_read16-Answer, vm_bus_read32-Answer,
  vm_bus_read64-Answer, vm_bus_write8-IsPlatform, vm_bus_write16-IsPlatform,
  vm_bus_write32-IsPlatform, vm_bus_write64-IsPlatform,
}

pub vm_bus-Sound : Sound {S = Platform} IsPlatform
vm_bus-Sound = record {
  read8_lt = λ p addr v. omega (arith, (vm_bus_read8-Answer p addr v).0);
  read16_lt = λ p addr v. omega (arith, (vm_bus_read16-Answer p addr v).0);
  read32_lt = λ p addr v. (vm_bus_read32-Answer p addr v).0;
  read64_lt = λ p addr v. (vm_bus_read64-Answer p addr v).0;
  read8_keeps = λ p addr v. (vm_bus_read8-Answer p addr v).1;
  read16_keeps = λ p addr v. (vm_bus_read16-Answer p addr v).1;
  read32_keeps = λ p addr v. (vm_bus_read32-Answer p addr v).1;
  read64_keeps = λ p addr v. (vm_bus_read64-Answer p addr v).1;
  write8_keeps = vm_bus_write8-IsPlatform;
  write16_keeps = vm_bus_write16-IsPlatform;
  write32_keeps = vm_bus_write32-IsPlatform;
  write64_keeps = vm_bus_write64-IsPlatform;
}

pending-Fits :
    (cpu : Cpu) (cause pending : ℕ)
    → Fits cpu
    → cause < 64
    → Fits (cpu_set_interrupt_pending cpu cause pending)
unfolding cpu_set_interrupt_pending
pending-Fits cpu cause pending f h =
    let mip = f.csrs_lt Names.csr_mip in
    Fits-if (is_set pending) _ _
      (set_csr-Fits cpu Names.csr_mip _ f (bit_or-lt 64 _ _ mip (two_pow-lt cause h)))
      (set_csr-Fits cpu Names.csr_mip _ f (bit_and-lt 64 _ _ mip))

vm_tick-Valid : (vm : Vm) → Valid IsPlatform vm → Valid IsPlatform (vm_tick vm)
unfolding vm_tick timer_tick
vm_tick-Valid vm v = record {
  fits = pending-Fits _ 7 _ (pending-Fits vm.cpu 3 _ v.fits (omega arith)) (omega arith);
  devices = with_timer vm.ctx _ v.devices (omega arith) v.devices.mtimecmp_lt;
}

-- A round of the machine, a step and a tick, keeps every register of the processor and of the timer
-- a word of 64 bits, the cells of RAM and of the serial port bytes, and its ring sound.
pub vm_round-Valid : (vm : Vm) → Valid IsPlatform vm → Valid IsPlatform (vm_round vm)
unfolding vm_round
vm_round-Valid vm v = vm_tick-Valid (cpu_step vm) (cpu_step-Valid vm_bus-Sound vm v)
