-- ===== src/Cpu/Interrupts/Priority.antt =====
-- Which interrupt is taken.
use risc_v_virtual_machine.Common.{ℕ, ◌^◌, ◌<◌, ◌≡◌, refl, sym, arith}
use risc_v_virtual_machine.Common.{Bool, true, false, if◌then◌else◌, is_set, bit_and, ◌&&◌}
use risc_v_virtual_machine.Common.{◌||◌, not, ◌==◌, inl, inr, Option, none, some}
use risc_v_virtual_machine.Common.{List, [], ◌∷◌, zero_or_pos}
use risc_v_virtual_machine.Bits.{bit, bit-zero, bit-lt, bit-bit_and, bit_and_pow, field_one}
use risc_v_virtual_machine.Cpu.{Cpu, s_mode, m_mode}
use risc_v_virtual_machine.Cpu.Csr.Names
use risc_v_virtual_machine.Cpu.Csr.BitLaws.{is_set-bit_and_pow}
use risc_v_virtual_machine.Cpu.Trap.{raise_interrupt}
use risc_v_virtual_machine.Cpu.Interrupts.{priority, check_causes, cpu_check_interrupts}

abbrev has : Cpu → ℕ → ℕ → Bool
has cpu register i = is_set (bit (cpu.csrs register) i)

-- An interrupt can be taken if it is pending and enabled. One that is delegated is taken in user
-- mode, and in supervisor mode if SIE is set; any other below machine mode, and in machine mode if
-- MIE is set.
abbrev pub takes : Cpu → ℕ → Bool
takes cpu cause =
    has cpu Names.csr_mip cause
    && has cpu Names.csr_mie cause
    && (if has cpu Names.csr_mideleg cause
        then not (cpu.priviledge == m_mode)
          && (not (cpu.priviledge == s_mode) || has cpu Names.csr_mstatus 1)
        else not (cpu.priviledge == m_mode) || has cpu Names.csr_mstatus 3)

-- The causes of interrupts in the privileged architecture.
abbrev pub ssi : ℕ
ssi = 1

abbrev pub msi : ℕ
msi = 3

abbrev pub sti : ℕ
sti = 5

abbrev pub mti : ℕ
mti = 7

abbrev pub sei : ℕ
sei = 9

abbrev pub mei : ℕ
mei = 11

-- The first of a list that passes a test.
unfoldable pub first : (ℕ → Bool) → List ℕ → Option ℕ
first test [] = none
first test (x ∷ xs) = let rest = first test xs in if test x then some x else rest

unfoldable pub interrupted : Cpu → Option ℕ → Cpu
interrupted cpu none = cpu
interrupted cpu (some cause) = raise_interrupt cpu cause

pending_bit :
    (x y cause : ℕ)
    → is_set (bit_and (bit_and x y) (2 ^ cause)) ≡ (is_set (bit x cause) && is_set (bit y cause))
pending_bit x y cause =
    rw (is_set-bit_and_pow (bit_and x y) cause, bit-bit_and x y cause)
      (ground (arith, bit-lt x cause, bit-lt y cause))

-- The tests of one round of the loop, against `takes`.
choose_lem :
    (cpu : Cpu) (cause : ℕ) (rest : Option ℕ)
    (pending enabled delegated machine supervisor mie sie : Bool)
    → (if not (pending && enabled)
        then interrupted cpu rest
        else if not delegated
        then (if machine && not mie then interrupted cpu rest else raise_interrupt cpu cause)
        else if machine
        then interrupted cpu rest
        else if supervisor && not sie
        then interrupted cpu rest
        else raise_interrupt cpu cause)
      ≡ interrupted cpu (
          if pending
            && enabled
            && (if delegated then not machine && (not supervisor || sie) else not machine || mie)
          then some cause
          else rest)
unfolding interrupted
choose_lem cpu cause rest false enabled delegated machine supervisor mie sie = refl
choose_lem cpu cause rest true false delegated machine supervisor mie sie = refl
choose_lem cpu cause rest true true false false supervisor mie sie = refl
choose_lem cpu cause rest true true false true supervisor false sie = refl
choose_lem cpu cause rest true true false true supervisor true sie = refl
choose_lem cpu cause rest true true true true supervisor mie sie = refl
choose_lem cpu cause rest true true true false false mie sie = refl
choose_lem cpu cause rest true true true false true mie false = refl
choose_lem cpu cause rest true true true false true mie true = refl

check_causes-first :
    (cpu : Cpu) (causes : List ℕ)
    → check_causes
        (cpu.csrs Names.csr_mstatus)
        (cpu.csrs Names.csr_mideleg)
        (bit_and (cpu.csrs Names.csr_mip) (cpu.csrs Names.csr_mie))
        cpu
        causes
      ≡ interrupted cpu (first (takes cpu) causes)
unfolding check_causes first
check_causes-first cpu [] = unfold interrupted in refl
check_causes-first cpu (cause ∷ rest) =
    rw
      (
        pending_bit (cpu.csrs Names.csr_mip) (cpu.csrs Names.csr_mie) cause,
        field_one (cpu.csrs Names.csr_mideleg) cause,
        field_one (cpu.csrs Names.csr_mstatus) 3,
        field_one (cpu.csrs Names.csr_mstatus) 1,
        check_causes-first cpu rest,
      )
      (choose_lem cpu cause (first (takes cpu) rest) (has cpu Names.csr_mip cause)
        (has cpu Names.csr_mie cause) (has cpu Names.csr_mideleg cause) (cpu.priviledge == m_mode)
        (cpu.priviledge == s_mode) (has cpu Names.csr_mstatus 3) (has cpu Names.csr_mstatus 1))

none_set : (k : ℕ) → is_set (bit_and 0 (2 ^ k)) ≡ false
none_set k = rw (bit_and_pow 0 k, bit-zero k) (ground arith)

-- With nothing pending, none is taken.
first_none :
    (cpu : Cpu) (causes : List ℕ)
    → check_causes (cpu.csrs Names.csr_mstatus) (cpu.csrs Names.csr_mideleg) 0 cpu causes ≡ cpu
unfolding check_causes
first_none cpu [] = refl
first_none cpu (cause ∷ rest) = rw (none_set cause) (first_none cpu rest)

is_set_pos : (n : ℕ) → 0 < n → is_set n ≡ true
is_set_pos n h = ground arith

-- `cpu_check_interrupts` takes the first interrupt of the order MEI, MSI, MTI, SEI, SSI, STI that
-- can be taken, and changes nothing if there is none.
pub cpu_check_interrupts-first :
    (cpu : Cpu)
    → cpu_check_interrupts cpu
      ≡ interrupted cpu (first (takes cpu) (mei ∷ msi ∷ mti ∷ sei ∷ ssi ∷ sti ∷ []))
unfolding cpu_check_interrupts
cpu_check_interrupts-first cpu =
    rw (sym (check_causes-first cpu priority))
      (elim (zero_or_pos (bit_and (cpu.csrs Names.csr_mip) (cpu.csrs Names.csr_mie))) [
        | inl e ↦ rw (e) (sym (first_none cpu priority))
        | inr e ↦ rw (is_set_pos _ e) refl
      ])
