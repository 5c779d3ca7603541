-- ===== src/Cpu/Return.antt =====
-- Traps and their returns: what `raise_exception`, `raise_interrupt`, `mret` and `sret` do to the
-- state of the processor. src/cpu/trap.c and src/cpu/instructions/dispatchers/system.c.
pub mod RoundTrip
pub mod Entry
use risc_v_virtual_machine.Common.{ℕ, zero, suc, ◌+◌, ◌-◌, ◌*◌, ◌/◌, ◌%◌, ◌^◌, ◌≤◌, ◌<◌, min, max}
use risc_v_virtual_machine.Common.{◌≡◌, ◌≢◌, ◌⊎◌, refl, arith, Bool, true, false, ◌==◌}
use risc_v_virtual_machine.Common.{if◌then◌else◌, is_set, to_word, bit_and, bit_or, not64, field}
use risc_v_virtual_machine.Common.{Bool-cases, inl, inr, ltb, ◌&&◌, ◌||◌, not}
use risc_v_virtual_machine.Bits.{bit, bit-lt, bit-cases, field_one, field_two}
use risc_v_virtual_machine.Cpu.{Cpu, s_mode, m_mode, u_mode, set_csr}
use risc_v_virtual_machine.Cpu.Csr.Names
use risc_v_virtual_machine.Cpu.Csr.Handlers.{set_bit}
use risc_v_virtual_machine.Cpu.Csr.BitLaws.{bit-set_bit}
use risc_v_virtual_machine.Cpu.Trap.{enter_m_trap, enter_s_trap, raise_exception, raise_interrupt}
use risc_v_virtual_machine.Cpu.Exec.System.{mret, sret}
use risc_v_virtual_machine.Cpu.Decode.{IType}

abbrev pub mstatus : Cpu → ℕ
mstatus cpu = cpu.csrs Names.csr_mstatus

-- The digits of `mstatus` after a trap into machine mode: MPP is the old privilege, MPIE the old
-- MIE, MIE is clear, and no other digit changes.
pub mstatus-enter_m_trap :
    (cpu : Cpu) (i : ℕ)
    → i < 64
    → bit (mstatus (enter_m_trap cpu)) i ≡ (
        if i == 12
        then field cpu.priviledge 1 1
        else if i == 11
        then field cpu.priviledge 0 1
        else if i == 3
        then 0
        else if i == 7
        then bit (mstatus cpu) 3
        else bit (mstatus cpu) i)
unfolding enter_m_trap
mstatus-enter_m_trap cpu i h =
    rw
      (
        bit-set_bit _ 12 (field cpu.priviledge 1 1) i (omega arith) h,
        bit-set_bit _ 11 (field cpu.priviledge 0 1) i (omega arith) h,
        bit-set_bit _ 3 0 i (omega arith) h,
        bit-set_bit (mstatus cpu) 7 (field (mstatus cpu) 3 1) i (omega arith) h,
      )
      (ground (arith, field_one (mstatus cpu) 3))

-- The same for supervisor mode: SPP is the low digit of the old privilege, SPIE the old SIE, and
-- SIE is clear.
pub mstatus-enter_s_trap :
    (cpu : Cpu) (i : ℕ)
    → i < 64
    → bit (mstatus (enter_s_trap cpu)) i ≡ (
        if i == 1
        then 0
        else if i == 5
        then bit (mstatus cpu) 1
        else if i == 8
        then field cpu.priviledge 0 1
        else bit (mstatus cpu) i)
unfolding enter_s_trap
mstatus-enter_s_trap cpu i h =
    rw
      (
        bit-set_bit _ 1 0 i (omega arith) h,
        bit-set_bit _ 5 (field (mstatus cpu) 1 1) i (omega arith) h,
        bit-set_bit (mstatus cpu) 8 (field cpu.priviledge 0 1) i (omega arith) h,
      )
      (ground (arith, field_one (mstatus cpu) 1))

pub mstatus-mret :
    (cpu : Cpu) (instruction : IType) (i : ℕ)
    → cpu.priviledge ≡ m_mode
    → i < 64
    → bit (mstatus (mret cpu instruction)) i ≡ (
        if i == 12
        then 0
        else if i == 11
        then 0
        else if i == 7
        then 1
        else if i == 3
        then bit (mstatus cpu) 7
        else bit (mstatus cpu) i)
unfolding mret
mstatus-mret cpu instruction i in_m h = rw in_m (
    rw
      (
        bit-set_bit _ 12 0 i (omega arith) h,
        bit-set_bit _ 11 0 i (omega arith) h,
        bit-set_bit _ 7 1 i (omega arith) h,
        bit-set_bit (mstatus cpu) 3 (field (mstatus cpu) 7 1) i (omega arith) h,
      )
      (ground (arith, field_one (mstatus cpu) 7, bit-lt (mstatus cpu) 7)))

pub mstatus-sret :
    (cpu : Cpu) (instruction : IType) (i : ℕ)
    → cpu.priviledge ≡ s_mode
    → i < 64
    → bit (mstatus (sret cpu instruction)) i ≡ (
        if i == 8
        then 0
        else if i == 5
        then 1
        else if i == 1
        then bit (mstatus cpu) 5
        else bit (mstatus cpu) i)
unfolding sret
mstatus-sret cpu instruction i in_s h = rw in_s (
    rw
      (
        bit-set_bit _ 8 0 i (omega arith) h,
        bit-set_bit _ 5 1 i (omega arith) h,
        bit-set_bit (mstatus cpu) 1 (field (mstatus cpu) 5 1) i (omega arith) h,
      )
      (ground (arith, field_one (mstatus cpu) 5, bit-lt (mstatus cpu) 5)))

-- The privilege is one of the three modes.
abbrev pub IsMode : ℕ → Type 0
IsMode p = (p ≡ u_mode) ⊎ (p ≡ s_mode) ⊎ (p ≡ m_mode)

-- The digits of a word that are not lost; 0 elsewhere.
abbrev pub kept : (ℕ → Bool) → ℕ → ℕ → ℕ
kept lost x i = if ltb i 64 && not (lost i) then bit x i else 0

-- `after` goes on where `before` was interrupted: the same program counter, privilege and
-- registers, and the same digits of `mstatus` but for those that the return clears or sets.
pub record Resumes (before after : Cpu) (lost : ℕ → Bool) : Type 0 where
  pub same_pc : after.pc ≡ before.pc
  pub same_priviledge : after.priviledge ≡ before.priviledge
  pub same_regs : after.regs ≡ before.regs
  pub same_mstatus : (i : ℕ) → kept lost (mstatus after) i ≡ kept lost (mstatus before) i

abbrev pub lost_by_mret : ℕ → Bool
lost_by_mret i = i == 7 || i == 11 || i == 12

abbrev pub lost_by_sret : ℕ → Bool
lost_by_sret i = i == 5 || i == 8

-- The exception is delegated to supervisor mode.
abbrev pub is_delegated : Cpu → ℕ → ℕ → Bool
is_delegated cpu register cause =
    ltb cpu.priviledge m_mode && is_set (bit_and (cpu.csrs register) (2 ^ cause))

priviledge-mret :
    (cpu : Cpu) (instruction : IType)
    → cpu.priviledge ≡ m_mode
    → (mret cpu instruction).priviledge ≡ bit (mstatus cpu) 11 + 2 * bit (mstatus cpu) 12
unfolding mret
priviledge-mret cpu instruction in_m = rw in_m (field_two (mstatus cpu) 11)

priviledge-sret :
    (cpu : Cpu) (instruction : IType)
    → cpu.priviledge ≡ s_mode
    → (sret cpu instruction).priviledge ≡ bit (mstatus cpu) 8
unfolding sret
priviledge-sret cpu instruction in_s = rw in_s (field_one (mstatus cpu) 8)

kept_same :
    (lost : ℕ → Bool) (x y : ℕ)
    → ((i : ℕ) → i < 64 → lost i ≡ false → bit x i ≡ bit y i)
    → (i : ℕ) → kept lost x i ≡ kept lost y i
kept_same lost x y h i = elim (Bool-cases (ltb i 64 && not (lost i))) [
  | inl keeps ↦ rw keeps (h i (ground (arith, keeps)) (ground (arith, keeps)))
  | inr loses ↦ rw loses refl
]

module _ (cpu : Cpu) (instruction : IType) where
  in_m : (enter_m_trap cpu).priviledge ≡ m_mode
  in_m = unfold enter_m_trap in refl

  in_s : (enter_s_trap cpu).priviledge ≡ s_mode
  in_s = unfold enter_s_trap in refl

  pub mret-enter_m_trap :
      IsMode cpu.priviledge
      → cpu.csrs Names.csr_mepc ≡ cpu.pc
      → Resumes cpu (mret (enter_m_trap cpu) instruction) lost_by_mret
  mret-enter_m_trap mode saved = record {
    same_pc = unfold mret enter_m_trap in ground arith;
    same_priviledge = ground (
      arith,
      priviledge-mret (enter_m_trap cpu) instruction in_m,
      mstatus-enter_m_trap cpu 11,
      mstatus-enter_m_trap cpu 12,
    );
    same_regs = unfold mret enter_m_trap in refl;
    same_mstatus = kept_same lost_by_mret _ _ (λ i h k. ground (
      arith,
      mstatus-mret (enter_m_trap cpu) instruction i in_m h,
      mstatus-enter_m_trap cpu i h,
      mstatus-enter_m_trap cpu 7,
    ));
  }

  pub sret-enter_s_trap :
      (cpu.priviledge ≡ u_mode) ⊎ (cpu.priviledge ≡ s_mode)
      → cpu.csrs Names.csr_sepc ≡ cpu.pc
      → Resumes cpu (sret (enter_s_trap cpu) instruction) lost_by_sret
  sret-enter_s_trap mode saved = record {
    same_pc = unfold sret enter_s_trap in ground arith;
    same_priviledge =
        ground
          (arith, priviledge-sret (enter_s_trap cpu) instruction in_s, mstatus-enter_s_trap cpu 8);
    same_regs = unfold sret enter_s_trap in refl;
    same_mstatus = kept_same lost_by_sret _ _ (λ i h k. ground (
      arith,
      mstatus-sret (enter_s_trap cpu) instruction i in_s h,
      mstatus-enter_s_trap cpu i h,
      mstatus-enter_s_trap cpu 5,
    ));
  }
