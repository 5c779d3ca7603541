-- ===== src/Cpu/Exec/AExtension.antt =====
-- Atomic memory operations: src/cpu/instructions/dispatchers/a_extension.c. The code of the W and D
-- forms is the same but for the width; the comparison of a reserved address comes first in C.
use risc_v_virtual_machine.Common.{ℕ, ◌+◌, ◌%◌, ◌^◌, bit_and, bit_or, bit_xor}
use risc_v_virtual_machine.Common.{◌==◌, if◌then◌else◌, ltb, u32}
use risc_v_virtual_machine.Common.{field, is_set, Bool, true, false}
use risc_v_virtual_machine.Common.{not, ◌&&◌, ◌||◌, Option, none, some}
use risc_v_virtual_machine.Common.Int.{signed, ltb_ℤ}
use risc_v_virtual_machine.Cpu.{Machine, on_cpu, cpu_read_reg, cpu_write_reg}
use risc_v_virtual_machine.Cpu.{cpu_invalidate_reservation}
use risc_v_virtual_machine.Cpu.Trap.{raise_exception, exc_illegal_instruction}
use risc_v_virtual_machine.Cpu.Trap.{exc_store_addr_misaligned, exc_load_addr_misaligned}
use risc_v_virtual_machine.Cpu.Decode.{AType, sign_extend}
use risc_v_virtual_machine.Bus.{Bus}
use risc_v_virtual_machine.Cpu.Paging.{access_store, access_load}
use risc_v_virtual_machine.Cpu.Paging.{is_success, translate_address}
use risc_v_virtual_machine.Cpu.Access.{raise_fault}

abbrev pub funct5_amoadd : ℕ
funct5_amoadd = 0x00

abbrev pub funct5_amoswap : ℕ
funct5_amoswap = 0x01

abbrev pub funct5_lr : ℕ
funct5_lr = 0x02

abbrev pub funct5_sc : ℕ
funct5_sc = 0x03

abbrev pub funct5_amoxor : ℕ
funct5_amoxor = 0x04

abbrev pub funct5_amoor : ℕ
funct5_amoor = 0x08

abbrev pub funct5_amoand : ℕ
funct5_amoand = 0x0C

abbrev pub funct5_amomin : ℕ
funct5_amomin = 0x10

abbrev pub funct5_amomax : ℕ
funct5_amomax = 0x14

abbrev pub funct5_amominu : ℕ
funct5_amominu = 0x18

abbrev pub funct5_amomaxu : ℕ
funct5_amomaxu = 0x1C

-- The new word of an atomic operation on words of `w` bits; `none` is the default case.
unfoldable pub amo_result : ℕ → ℕ → ℕ → ℕ → Option ℕ
amo_result w funct5 old rhs =
    if funct5 == funct5_amoswap
    then some rhs
    else if funct5 == funct5_amoadd
    then some ((old + rhs) % 2 ^ w)
    else if funct5 == funct5_amoxor
    then some (bit_xor old rhs)
    else if funct5 == funct5_amoand
    then some (bit_and old rhs)
    else if funct5 == funct5_amoor
    then some (bit_or old rhs)
    else if funct5 == funct5_amomin
    then some (if ltb_ℤ (signed w old) (signed w rhs) then old else rhs)
    else if funct5 == funct5_amomax
    then some (if ltb_ℤ (signed w rhs) (signed w old) then old else rhs)
    else if funct5 == funct5_amominu
    then some (if ltb old rhs then old else rhs)
    else if funct5 == funct5_amomaxu
    then some (if ltb rhs old then old else rhs)
    else none

-- The nine operations share a case.
abbrev pub is_amo : ℕ → Bool
is_amo funct5 =
    funct5 == funct5_amoadd
    || funct5 == funct5_amoswap
    || funct5 == funct5_amoxor
    || funct5 == funct5_amoor
    || funct5 == funct5_amoand
    || funct5 == funct5_amomin
    || funct5 == funct5_amomax
    || funct5 == funct5_amominu
    || funct5 == funct5_amomaxu

module _ {S : Type 0} ⦃bus : Bus S⦄ where
  abbrev pub illegal : AType → Machine S → Machine S
  illegal instruction = on_cpu (λ cpu. raise_exception cpu exc_illegal_instruction instruction.raw)

  unfoldable pub amo_w : Machine S → AType → Machine S
  amo_w m instruction =
      let addr = cpu_read_reg m.cpu instruction.rs1 in
      let rhs = u32 (cpu_read_reg m.cpu instruction.rs2) in
      let (tr, m1) = translate_address addr access_store m in
      let (old, ctx) = bus.read32 m1.ctx tr.physical_address in
      let m2 = record m1 { ctx = ctx } in
      let finish = λ (new : ℕ).
        on_cpu (λ cpu. cpu_write_reg cpu instruction.rd (sign_extend old 32))
          (record m2 {
            cpu = cpu_invalidate_reservation m2.cpu tr.physical_address 4;
            ctx = bus.write32 m2.ctx tr.physical_address new;
          }) in
      if is_set (field addr 0 2)
      then on_cpu (λ cpu. raise_exception cpu exc_store_addr_misaligned addr) m
      else if not (is_success tr.result)
      then raise_fault tr addr m1
      else elim (amo_result 32 instruction.funct5 old rhs) [
        | none ↦ illegal instruction m2
        | some new ↦ finish new
      ]

  unfoldable pub amo_d : Machine S → AType → Machine S
  amo_d m instruction =
      let addr = cpu_read_reg m.cpu instruction.rs1 in
      let rhs = cpu_read_reg m.cpu instruction.rs2 in
      let (tr, m1) = translate_address addr access_store m in
      let (old, ctx) = bus.read64 m1.ctx tr.physical_address in
      let m2 = record m1 { ctx = ctx } in
      let finish = λ (new : ℕ).
        on_cpu (λ cpu. cpu_write_reg cpu instruction.rd old)
          (record m2 {
            cpu = cpu_invalidate_reservation m2.cpu tr.physical_address 8;
            ctx = bus.write64 m2.ctx tr.physical_address new;
          }) in
      if is_set (field addr 0 3)
      then on_cpu (λ cpu. raise_exception cpu exc_store_addr_misaligned addr) m
      else if not (is_success tr.result)
      then raise_fault tr addr m1
      else elim (amo_result 64 instruction.funct5 old rhs) [
        | none ↦ illegal instruction m2
        | some new ↦ finish new
      ]

  unfoldable pub lr_d : Machine S → AType → Machine S
  lr_d m instruction =
      let addr = cpu_read_reg m.cpu instruction.rs1 in
      let (tr, m1) = translate_address addr access_load m in
      let (value, ctx) = bus.read64 m1.ctx tr.physical_address in
      let written = cpu_write_reg m1.cpu instruction.rd value in
      let reserved = record written {
        reservation = record { valid = true; phys_addr = tr.physical_address; size = 8 };
      } in
      if not (instruction.rs2 == 0)
      then illegal instruction m
      else if is_set (field addr 0 3)
      then on_cpu (λ cpu. raise_exception cpu exc_load_addr_misaligned addr) m
      else if not (is_success tr.result)
      then raise_fault tr addr m1
      else record { cpu = reserved; ctx = ctx }

  unfoldable pub lr_w : Machine S → AType → Machine S
  lr_w m instruction =
      let addr = cpu_read_reg m.cpu instruction.rs1 in
      let (tr, m1) = translate_address addr access_load m in
      let (value, ctx) = bus.read32 m1.ctx tr.physical_address in
      let written = cpu_write_reg m1.cpu instruction.rd (sign_extend value 32) in
      let reserved = record written {
        reservation = record { valid = true; phys_addr = tr.physical_address; size = 4 };
      } in
      if not (instruction.rs2 == 0)
      then illegal instruction m
      else if is_set (field addr 0 2)
      then on_cpu (λ cpu. raise_exception cpu exc_load_addr_misaligned addr) m
      else if not (is_success tr.result)
      then raise_fault tr addr m1
      else record { cpu = reserved; ctx = ctx }

  unfoldable pub sc_d : Machine S → AType → Machine S
  sc_d m instruction =
      let addr = cpu_read_reg m.cpu instruction.rs1 in
      let value = cpu_read_reg m.cpu instruction.rs2 in
      let (tr, m1) = translate_address addr access_store m in
      let reservation = m1.cpu.reservation in
      let matches =
        reservation.phys_addr == tr.physical_address
        && reservation.valid
        && reservation.size == 8 in
      let m2 =
        if matches
        then record {
          cpu = cpu_write_reg m1.cpu instruction.rd 0;
          ctx = bus.write64 m1.ctx tr.physical_address value;
        }
        else on_cpu (λ cpu. cpu_write_reg cpu instruction.rd 1) m1 in
      if is_set (field addr 0 3)
      then on_cpu (λ cpu. raise_exception cpu exc_store_addr_misaligned addr) m
      else if not (is_success tr.result)
      then raise_fault tr addr m1
      else on_cpu (λ cpu. record cpu { reservation = record reservation { valid = false } }) m2

  unfoldable pub sc_w : Machine S → AType → Machine S
  sc_w m instruction =
      let addr = cpu_read_reg m.cpu instruction.rs1 in
      let value = u32 (cpu_read_reg m.cpu instruction.rs2) in
      let (tr, m1) = translate_address addr access_store m in
      let reservation = m1.cpu.reservation in
      let matches =
        reservation.phys_addr == tr.physical_address
        && reservation.valid
        && reservation.size == 4 in
      let m2 =
        if matches
        then record {
          cpu = cpu_write_reg m1.cpu instruction.rd 0;
          ctx = bus.write32 m1.ctx tr.physical_address value;
        }
        else on_cpu (λ cpu. cpu_write_reg cpu instruction.rd 1) m1 in
      if is_set (field addr 0 2)
      then on_cpu (λ cpu. raise_exception cpu exc_store_addr_misaligned addr) m
      else if not (is_success tr.result)
      then raise_fault tr addr m1
      else on_cpu (λ cpu. record cpu { reservation = record reservation { valid = false } }) m2

  unfoldable pub dispatch_a_extension : Machine S → AType → Machine S
  dispatch_a_extension m instruction =
      let funct3 = instruction.funct3 in
      let funct5 = instruction.funct5 in
      if is_amo funct5
      then (if funct3 == 0x2
          then amo_w m instruction
          else if funct3 == 0x3
          then amo_d m instruction
          else illegal instruction m)
      else if funct5 == funct5_lr
      then (if funct3 == 0x2
          then lr_w m instruction
          else if funct3 == 0x3
          then lr_d m instruction
          else illegal instruction m)
      else if funct5 == funct5_sc
      then (if funct3 == 0x2
          then sc_w m instruction
          else if funct3 == 0x3
          then sc_d m instruction
          else illegal instruction m)
      else illegal instruction m
