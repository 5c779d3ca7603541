-- ===== src/Cpu/Fits/Traps.antt =====
-- The widths of the words that src/cpu/trap.c writes.
use risc_v_virtual_machine.Common.{ℕ, arith, ◌<◌, ◌^◌, ◌&&◌, true, is_set, bit_and, ltb}
use risc_v_virtual_machine.Bits.{bit_or-lt, bit_and-lt}
use risc_v_virtual_machine.Cpu.{Cpu, set_csr, m_mode}
use risc_v_virtual_machine.Cpu.Csr.Names
use risc_v_virtual_machine.Cpu.Csr.BitLaws.{two_pow-lt}
use risc_v_virtual_machine.Cpu.Csr.Handlers.{set_bit}
use risc_v_virtual_machine.Cpu.Trap.{enter_m_trap, enter_s_trap, raise_exception, raise_interrupt}
use risc_v_virtual_machine.Cpu.Fits.{Fits, Fits-if, set_csr-Fits}
use risc_v_virtual_machine.Cpu.Fits.Values.{if-lt}

pub set_bit-lt : (value b flag : ℕ) → value < 2 ^ 64 → b < 64 → set_bit value b flag < 2 ^ 64
unfolding set_bit
set_bit-lt value b flag h k =
    if-lt (is_set flag) _ _ (bit_or-lt 64 value (2 ^ b) h (two_pow-lt b k))
      (bit_and-lt 64 value _ h)

-- The entry into a handler, at a program counter below the vector of the handler.
abbrev entered : Cpu → ℕ → ℕ → ℕ → Cpu
entered cpu mstatus pc mode =
    let c = set_csr cpu Names.csr_mstatus mstatus in
    record c { priviledge = mode; pc = pc; trap_taken = true }

entered-Fits :
    (cpu : Cpu) (mstatus pc mode : ℕ)
    → Fits cpu
    → mstatus < 2 ^ 64
    → pc < 2 ^ 64
    → Fits (entered cpu mstatus pc mode)
entered-Fits cpu mstatus pc mode f h k =
    let g = set_csr-Fits cpu Names.csr_mstatus mstatus f h in
    record { regs_lt = g.regs_lt; csrs_lt = g.csrs_lt; pc_lt = k }

enter_m_trap-Fits : (cpu : Cpu) → Fits cpu → Fits (enter_m_trap cpu)
unfolding enter_m_trap
enter_m_trap-Fits cpu f =
    entered-Fits cpu _ _ m_mode f
      (set_bit-lt _ 12 _
        (set_bit-lt _ 11 _
          (set_bit-lt _ 3 _
            (set_bit-lt (cpu.csrs Names.csr_mstatus) 7 _ (f.csrs_lt Names.csr_mstatus)
              (omega arith))
            (omega arith))
          (omega arith))
        (omega arith))
      (bit_and-lt 64 _ _ (f.csrs_lt Names.csr_mtvec))

enter_s_trap-Fits : (cpu : Cpu) → Fits cpu → Fits (enter_s_trap cpu)
unfolding enter_s_trap
enter_s_trap-Fits cpu f =
    entered-Fits cpu _ _ 1 f
      (set_bit-lt _ 1 _
        (set_bit-lt _ 5 _
          (set_bit-lt (cpu.csrs Names.csr_mstatus) 8 _ (f.csrs_lt Names.csr_mstatus) (omega arith))
          (omega arith))
        (omega arith))
      (bit_and-lt 64 _ _ (f.csrs_lt Names.csr_stvec))

-- The three registers that tell a handler what happened.
told-Fits :
    (cpu : Cpu) (a b c pc x y : ℕ)
    → Fits cpu
    → pc < 2 ^ 64
    → x < 2 ^ 64
    → y < 2 ^ 64
    → Fits (set_csr (set_csr (set_csr cpu a pc) b x) c y)
told-Fits cpu a b c pc x y f h k l =
    set_csr-Fits _ c y (set_csr-Fits _ b x (set_csr-Fits cpu a pc f h) k) l

pub raise_exception-Fits :
    (cpu : Cpu) (cause tvalue : ℕ)
    → Fits cpu
    → cause < 2 ^ 64
    → tvalue < 2 ^ 64
    → Fits (raise_exception cpu cause tvalue)
unfolding raise_exception
raise_exception-Fits cpu cause tvalue f h k =
    Fits-if (ltb cpu.priviledge m_mode && is_set (bit_and (cpu.csrs Names.csr_medeleg) (2 ^ cause)))
      _ _
      (enter_s_trap-Fits _ (
        told-Fits cpu Names.csr_sepc Names.csr_scause Names.csr_stval cpu.pc cause tvalue f f.pc_lt
          h k))
      (enter_m_trap-Fits _ (
        told-Fits cpu Names.csr_mepc Names.csr_mcause Names.csr_mtval cpu.pc cause tvalue f f.pc_lt
          h k))

pub raise_interrupt-Fits :
    (cpu : Cpu) (cause : ℕ) → Fits cpu → cause < 64 → Fits (raise_interrupt cpu cause)
unfolding raise_interrupt
raise_interrupt-Fits cpu cause f h =
    let code = bit_or-lt 64 (2 ^ 63) cause (omega arith) (omega arith) in
    Fits-if (ltb cpu.priviledge m_mode && is_set (bit_and (cpu.csrs Names.csr_mideleg) (2 ^ cause)))
      _ _
      (enter_s_trap-Fits _ (
        told-Fits cpu Names.csr_sepc Names.csr_scause Names.csr_stval cpu.pc _ 0 f f.pc_lt code
          (omega arith)))
      (enter_m_trap-Fits _ (
        told-Fits cpu Names.csr_mepc Names.csr_mcause Names.csr_mtval cpu.pc _ 0 f f.pc_lt code
          (omega arith)))
