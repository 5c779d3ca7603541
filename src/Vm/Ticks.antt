-- ===== src/Vm/Ticks.antt =====
-- The interrupt lines of the timer in `vm_tick`.
use risc_v_virtual_machine.Common.{
  ℕ, zero, suc, refl, ◌∙◌, ◌+◌, ◌%◌, ◌^◌, ◌<◌, ◌≡◌, arith, inl, inr, Bool-cases,
}
use risc_v_virtual_machine.Common.{if◌then◌else◌, leb, ◌==◌, is_set, to_word, not64}
use risc_v_virtual_machine.Bits.{bit, bit-lt, bit-pow, bit-bit_and, bit-bit_or, bit-complement}
use risc_v_virtual_machine.Devices.Timer.{timer_tick}
use risc_v_virtual_machine.Cpu.{Cpu}
use risc_v_virtual_machine.Cpu.Csr.Names
use risc_v_virtual_machine.Cpu.Csr.BitLaws.{two_pow-lt}
use risc_v_virtual_machine.Cpu.Interrupts.{cpu_set_interrupt_pending}
use risc_v_virtual_machine.Vm.{Vm, vm_tick}

pub cpu_set_interrupt_pending_lem :
    (cpu : Cpu) (cause pending i : ℕ)
    → cause < 64
    → i < 64
    → bit ((cpu_set_interrupt_pending cpu cause pending).csrs Names.csr_mip) i
      ≡ (if i == cause then to_word (is_set pending) else bit (cpu.csrs Names.csr_mip) i)
unfolding cpu_set_interrupt_pending
cpu_set_interrupt_pending_lem cpu cause pending i hc hi = elim (Bool-cases (is_set pending)) [
  | inl on ↦
      rw (on, bit-bit_or (cpu.csrs Names.csr_mip) (2 ^ cause) i, bit-pow cause i)
        (ground (arith, bit-lt (cpu.csrs Names.csr_mip) i))
  | inr off ↦
      rw (off, bit-bit_and (cpu.csrs Names.csr_mip) (not64 (2 ^ cause)) i)
        (ground (
          arith,
          bit-lt (cpu.csrs Names.csr_mip) i,
          bit-pow cause i,
          bit-complement 64 (2 ^ cause) i (two_pow-lt cause hc) hi,
        ))
]

-- A tick sets MTIP to whether MTIME, one more modulo 2 ^ 64, has reached MTIMECMP and MSIP to the
-- timer's bit, and changes no other pending interrupt.
pub vm_tick-pending :
    (vm : Vm) (i : ℕ)
    → i < 64
    → bit ((vm_tick vm).cpu.csrs Names.csr_mip) i ≡ (
        if i == 7
        then to_word (leb vm.ctx.timer.mtimecmp ((vm.ctx.timer.mtime + 1) % 2 ^ 64))
        else if i == 3
        then vm.ctx.timer.msip % 2
        else bit (vm.cpu.csrs Names.csr_mip) i)
unfolding vm_tick timer_tick
vm_tick-pending vm i h =
    rw
      (
        cpu_set_interrupt_pending_lem _ 7 _ i (omega arith) h,
        cpu_set_interrupt_pending_lem vm.cpu 3 _ i (omega arith) h,
      )
      (ground arith)

-- A number of ticks one after the other.
unfoldable pub ticks : ℕ → Vm → Vm
ticks zero vm = vm
ticks (suc n) vm = vm_tick (ticks n vm)

ticks-timer :
    (n : ℕ) (vm : Vm)
    → vm.ctx.timer.mtime + n < 2 ^ 64
    → ((ticks n vm).ctx.timer.mtime ≡ vm.ctx.timer.mtime + n)
      × ((ticks n vm).ctx.timer.mtimecmp ≡ vm.ctx.timer.mtimecmp)
unfolding ticks vm_tick timer_tick
ticks-timer zero vm h = (omega arith, refl)
ticks-timer (suc n) vm h =
    let (time, compare) = ticks-timer n vm (omega arith) in (rw time (omega arith), compare)

-- After one tick or more, which do not take MTIME past 2 ^ 64, MTIP is set if and only if MTIME has
-- reached MTIMECMP by then.
pub ticks-mtip :
    (n : ℕ) (vm : Vm)
    → vm.ctx.timer.mtime + suc n < 2 ^ 64
    → bit ((ticks (suc n) vm).cpu.csrs Names.csr_mip) 7
      ≡ to_word (leb vm.ctx.timer.mtimecmp (vm.ctx.timer.mtime + suc n))
unfolding ticks
ticks-mtip n vm h =
    let (time, compare) = ticks-timer n vm (omega arith) in
    let next : (vm.ctx.timer.mtime + n + 1) % 2 ^ 64 ≡ vm.ctx.timer.mtime + suc n = omega arith in
    vm_tick-pending (ticks n vm) 7 (omega arith) ∙ rw (time, compare, next) refl
