-- ===== src/Cpu/Fits/Products.antt =====
-- The instructions of src/cpu/instructions/dispatchers/m_extension.c.
use risc_v_virtual_machine.Common.{◌==◌, ◌&&◌, ◌-◌, ◌/◌, ◌%◌, u32, arith, ◌<◌, ◌^◌}
use risc_v_virtual_machine.Common.Int.{quot, signed}
use risc_v_virtual_machine.Common.Int.{rem as rem_ℤ}
use risc_v_virtual_machine.Cpu.{Cpu, cpu_read_reg}
use risc_v_virtual_machine.Cpu.Decode.{RType}
use risc_v_virtual_machine.Cpu.Trap.{exc_illegal_instruction}
use risc_v_virtual_machine.Cpu.Fits.{Fits, cpu_read_reg-lt, cpu_write_reg-Fits}
use risc_v_virtual_machine.Cpu.Fits.Values.{
  quotient-lt, remainder-lt, if-lt, unsigned_64-lt, unsigned_32-lt, sign_extend-lt, product_high-lt,
}
use risc_v_virtual_machine.Cpu.Fits.Traps.{raise_exception-Fits}
use risc_v_virtual_machine.Cpu.Exec.Op.{}
use risc_v_virtual_machine.Cpu.Exec.MExtension.{
  mul, mulh, mulhsu, mulhu, div, divu, rem, remu, mulw, divw, divuw, remw, remuw, dispatch_m_op,
  dispatch_m_op_32,
}

mul-Fits : (cpu : Cpu) (i : RType) → Fits cpu → Fits (mul cpu i)
unfolding mul
mul-Fits cpu i f =
    let a = cpu_read_reg-lt cpu i.rs1 f in
    let b = cpu_read_reg-lt cpu i.rs2 f in cpu_write_reg-Fits cpu i.rd _ f (omega arith)

mulh-Fits : (cpu : Cpu) (i : RType) → Fits cpu → Fits (mulh cpu i)
unfolding mulh
mulh-Fits cpu i f =
    let a = cpu_read_reg-lt cpu i.rs1 f in
    let b = cpu_read_reg-lt cpu i.rs2 f in cpu_write_reg-Fits cpu i.rd _ f (unsigned_64-lt _)

mulhsu-Fits : (cpu : Cpu) (i : RType) → Fits cpu → Fits (mulhsu cpu i)
unfolding mulhsu
mulhsu-Fits cpu i f =
    let a = cpu_read_reg-lt cpu i.rs1 f in
    let b = cpu_read_reg-lt cpu i.rs2 f in cpu_write_reg-Fits cpu i.rd _ f (unsigned_64-lt _)

mulhu-Fits : (cpu : Cpu) (i : RType) → Fits cpu → Fits (mulhu cpu i)
unfolding mulhu
mulhu-Fits cpu i f =
    let a = cpu_read_reg-lt cpu i.rs1 f in
    let b = cpu_read_reg-lt cpu i.rs2 f in
    let x = cpu_read_reg cpu i.rs1 in
    let y = cpu_read_reg cpu i.rs2 in cpu_write_reg-Fits cpu i.rd _ f (product_high-lt x y a b)

div-Fits : (cpu : Cpu) (i : RType) → Fits cpu → Fits (div cpu i)
unfolding div
div-Fits cpu i f =
    let a = cpu_read_reg-lt cpu i.rs1 f in
    let b = cpu_read_reg-lt cpu i.rs2 f in
    let x = cpu_read_reg cpu i.rs1 in
    let y = cpu_read_reg cpu i.rs2 in
    cpu_write_reg-Fits cpu i.rd _ f (
      if-lt (x == 2 ^ 63 && y == 2 ^ 64 - 1) (2 ^ 63) _ (omega arith) (
        if-lt (y == 0) 0xFFFFFFFFFFFFFFFF _ (omega arith)
          (unsigned_64-lt (quot (signed 64 x) (signed 64 y)))))

divu-Fits : (cpu : Cpu) (i : RType) → Fits cpu → Fits (divu cpu i)
unfolding divu
divu-Fits cpu i f =
    let a = cpu_read_reg-lt cpu i.rs1 f in
    let b = cpu_read_reg-lt cpu i.rs2 f in
    let x = cpu_read_reg cpu i.rs1 in
    let y = cpu_read_reg cpu i.rs2 in
    cpu_write_reg-Fits cpu i.rd _ f
      (if-lt (y == 0) 0xFFFFFFFFFFFFFFFF (x / y) (omega arith) (quotient-lt x y a))

rem-Fits : (cpu : Cpu) (i : RType) → Fits cpu → Fits (rem cpu i)
unfolding rem
rem-Fits cpu i f =
    let a = cpu_read_reg-lt cpu i.rs1 f in
    let b = cpu_read_reg-lt cpu i.rs2 f in
    let x = cpu_read_reg cpu i.rs1 in
    let y = cpu_read_reg cpu i.rs2 in
    cpu_write_reg-Fits cpu i.rd _ f (
      if-lt (x == 2 ^ 63 && y == 2 ^ 64 - 1) 0 _ (omega arith)
        (if-lt (y == 0) x _ a (unsigned_64-lt (rem_ℤ (signed 64 x) (signed 64 y)))))

remu-Fits : (cpu : Cpu) (i : RType) → Fits cpu → Fits (remu cpu i)
unfolding remu
remu-Fits cpu i f =
    let a = cpu_read_reg-lt cpu i.rs1 f in
    let b = cpu_read_reg-lt cpu i.rs2 f in
    let x = cpu_read_reg cpu i.rs1 in
    let y = cpu_read_reg cpu i.rs2 in
    cpu_write_reg-Fits cpu i.rd _ f (if-lt (y == 0) x (x % y) a (remainder-lt x y a))

mulw-Fits : (cpu : Cpu) (i : RType) → Fits cpu → Fits (mulw cpu i)
unfolding mulw
mulw-Fits cpu i f =
    let a = cpu_read_reg-lt cpu i.rs1 f in
    let b = cpu_read_reg-lt cpu i.rs2 f in
    cpu_write_reg-Fits cpu i.rd _ f (sign_extend-lt _ 32 (omega arith))

divw-Fits : (cpu : Cpu) (i : RType) → Fits cpu → Fits (divw cpu i)
unfolding divw
divw-Fits cpu i f =
    let a = cpu_read_reg-lt cpu i.rs1 f in
    let b = cpu_read_reg-lt cpu i.rs2 f in
    let x = cpu_read_reg cpu i.rs1 in
    let y = cpu_read_reg cpu i.rs2 in
    cpu_write_reg-Fits cpu i.rd _ f (
      sign_extend-lt _ 32 (
        if-lt (u32 x == 2 ^ 31 && u32 y == 2 ^ 32 - 1) (2 ^ 31) _ (omega arith) (
          if-lt (u32 y == 0) 0xFFFFFFFF _ (omega arith)
            (unsigned_32-lt (quot (signed 32 (u32 x)) (signed 32 (u32 y)))))))

divuw-Fits : (cpu : Cpu) (i : RType) → Fits cpu → Fits (divuw cpu i)
unfolding divuw
divuw-Fits cpu i f =
    let a = cpu_read_reg-lt cpu i.rs1 f in
    let b = cpu_read_reg-lt cpu i.rs2 f in
    let x = cpu_read_reg cpu i.rs1 in
    let y = cpu_read_reg cpu i.rs2 in
    cpu_write_reg-Fits cpu i.rd _ f (
      sign_extend-lt _ 32 (
        if-lt (u32 y == 0) 0xFFFFFFFF (u32 x / u32 y) (omega arith)
          (quotient-lt (u32 x) (u32 y) (omega arith))))

remw-Fits : (cpu : Cpu) (i : RType) → Fits cpu → Fits (remw cpu i)
unfolding remw
remw-Fits cpu i f =
    let a = cpu_read_reg-lt cpu i.rs1 f in
    let b = cpu_read_reg-lt cpu i.rs2 f in
    let x = cpu_read_reg cpu i.rs1 in
    let y = cpu_read_reg cpu i.rs2 in
    cpu_write_reg-Fits cpu i.rd _ f (
      sign_extend-lt _ 32 (
        if-lt (u32 x == 2 ^ 31 && u32 y == 2 ^ 32 - 1) 0 _ (omega arith) (
          if-lt (u32 y == 0) (u32 x) _ (omega arith)
            (unsigned_32-lt (rem_ℤ (signed 32 (u32 x)) (signed 32 (u32 y)))))))

remuw-Fits : (cpu : Cpu) (i : RType) → Fits cpu → Fits (remuw cpu i)
unfolding remuw
remuw-Fits cpu i f =
    let a = cpu_read_reg-lt cpu i.rs1 f in
    let b = cpu_read_reg-lt cpu i.rs2 f in
    let x = cpu_read_reg cpu i.rs1 in
    let y = cpu_read_reg cpu i.rs2 in
    cpu_write_reg-Fits cpu i.rd _ f (
      sign_extend-lt _ 32 (
        if-lt (u32 y == 0) (u32 x) (u32 x % u32 y) (omega arith)
          (remainder-lt (u32 x) (u32 y) (omega arith))))

pub dispatch_m_op-Fits :
    (cpu : Cpu) (i : RType) → Fits cpu → i.raw < 2 ^ 64 → Fits (dispatch_m_op cpu i)
unfolding dispatch_m_op
dispatch_m_op-Fits cpu i f h = grind (
  arith,
  f,
  raise_exception-Fits cpu exc_illegal_instruction i.raw f (omega arith) h,
  mul-Fits cpu i f,
  mulh-Fits cpu i f,
  mulhsu-Fits cpu i f,
  mulhu-Fits cpu i f,
  div-Fits cpu i f,
  divu-Fits cpu i f,
  rem-Fits cpu i f,
  remu-Fits cpu i f,
)

pub dispatch_m_op_32-Fits :
    (cpu : Cpu) (i : RType) → Fits cpu → i.raw < 2 ^ 64 → Fits (dispatch_m_op_32 cpu i)
unfolding dispatch_m_op_32
dispatch_m_op_32-Fits cpu i f h = grind (
  arith,
  f,
  raise_exception-Fits cpu exc_illegal_instruction i.raw f (omega arith) h,
  mulw-Fits cpu i f,
  divw-Fits cpu i f,
  divuw-Fits cpu i f,
  remw-Fits cpu i f,
  remuw-Fits cpu i f,
)
