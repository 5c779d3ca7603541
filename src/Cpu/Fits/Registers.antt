-- ===== src/Cpu/Fits/Registers.antt =====
-- The register instructions of op.c and op_32.c in src/cpu/instructions/dispatchers.
use risc_v_virtual_machine.Common.{arith, ◌<◌, ◌^◌}
use risc_v_virtual_machine.Bits.{bit_or-lt, bit_and-lt, bit_xor-lt}
use risc_v_virtual_machine.Cpu.{Cpu}
use risc_v_virtual_machine.Cpu.Decode.{RType}
use risc_v_virtual_machine.Cpu.Trap.{exc_illegal_instruction}
use risc_v_virtual_machine.Cpu.Fits.{Fits, cpu_read_reg-lt, cpu_write_reg-Fits}
use risc_v_virtual_machine.Cpu.Fits.Values.{
  quotient-lt, unsigned_64-lt, unsigned_32-lt, sign_extend-lt,
}
use risc_v_virtual_machine.Cpu.Fits.Traps.{raise_exception-Fits}
use risc_v_virtual_machine.Cpu.Exec.Op.{
  add, sub, sll, slt, sltu, xor_op, srl, sra, or_op, and_op, dispatch_op,
}
use risc_v_virtual_machine.Cpu.Exec.Op32.{addw, subw, sllw, srlw, sraw, dispatch_op_32}
use risc_v_virtual_machine.Cpu.Exec.MExtension.{}

add-Fits : (cpu : Cpu) (i : RType) → Fits cpu → Fits (add cpu i)
unfolding add
add-Fits cpu i f =
    let a = cpu_read_reg-lt cpu i.rs1 f in
    let b = cpu_read_reg-lt cpu i.rs2 f in cpu_write_reg-Fits cpu i.rd _ f (omega arith)

sub-Fits : (cpu : Cpu) (i : RType) → Fits cpu → Fits (sub cpu i)
unfolding sub
sub-Fits cpu i f =
    let a = cpu_read_reg-lt cpu i.rs1 f in
    let b = cpu_read_reg-lt cpu i.rs2 f in cpu_write_reg-Fits cpu i.rd _ f (omega arith)

sll-Fits : (cpu : Cpu) (i : RType) → Fits cpu → Fits (sll cpu i)
unfolding sll
sll-Fits cpu i f =
    let a = cpu_read_reg-lt cpu i.rs1 f in
    let b = cpu_read_reg-lt cpu i.rs2 f in cpu_write_reg-Fits cpu i.rd _ f (omega arith)

slt-Fits : (cpu : Cpu) (i : RType) → Fits cpu → Fits (slt cpu i)
unfolding slt
slt-Fits cpu i f =
    let a = cpu_read_reg-lt cpu i.rs1 f in
    let b = cpu_read_reg-lt cpu i.rs2 f in cpu_write_reg-Fits cpu i.rd _ f (ground arith)

sltu-Fits : (cpu : Cpu) (i : RType) → Fits cpu → Fits (sltu cpu i)
unfolding sltu
sltu-Fits cpu i f =
    let a = cpu_read_reg-lt cpu i.rs1 f in
    let b = cpu_read_reg-lt cpu i.rs2 f in cpu_write_reg-Fits cpu i.rd _ f (ground arith)

xor_op-Fits : (cpu : Cpu) (i : RType) → Fits cpu → Fits (xor_op cpu i)
unfolding xor_op
xor_op-Fits cpu i f =
    let a = cpu_read_reg-lt cpu i.rs1 f in
    let b = cpu_read_reg-lt cpu i.rs2 f in cpu_write_reg-Fits cpu i.rd _ f (bit_xor-lt 64 _ _ a b)

srl-Fits : (cpu : Cpu) (i : RType) → Fits cpu → Fits (srl cpu i)
unfolding srl
srl-Fits cpu i f =
    let a = cpu_read_reg-lt cpu i.rs1 f in
    let b = cpu_read_reg-lt cpu i.rs2 f in cpu_write_reg-Fits cpu i.rd _ f (quotient-lt _ _ a)

sra-Fits : (cpu : Cpu) (i : RType) → Fits cpu → Fits (sra cpu i)
unfolding sra
sra-Fits cpu i f =
    let a = cpu_read_reg-lt cpu i.rs1 f in
    let b = cpu_read_reg-lt cpu i.rs2 f in cpu_write_reg-Fits cpu i.rd _ f (unsigned_64-lt _)

or_op-Fits : (cpu : Cpu) (i : RType) → Fits cpu → Fits (or_op cpu i)
unfolding or_op
or_op-Fits cpu i f =
    let a = cpu_read_reg-lt cpu i.rs1 f in
    let b = cpu_read_reg-lt cpu i.rs2 f in cpu_write_reg-Fits cpu i.rd _ f (bit_or-lt 64 _ _ a b)

and_op-Fits : (cpu : Cpu) (i : RType) → Fits cpu → Fits (and_op cpu i)
unfolding and_op
and_op-Fits cpu i f =
    let a = cpu_read_reg-lt cpu i.rs1 f in
    let b = cpu_read_reg-lt cpu i.rs2 f in cpu_write_reg-Fits cpu i.rd _ f (bit_and-lt 64 _ _ a)

addw-Fits : (cpu : Cpu) (i : RType) → Fits cpu → Fits (addw cpu i)
unfolding addw
addw-Fits cpu i f =
    let a = cpu_read_reg-lt cpu i.rs1 f in
    let b = cpu_read_reg-lt cpu i.rs2 f in
    cpu_write_reg-Fits cpu i.rd _ f (sign_extend-lt _ 32 (omega arith))

subw-Fits : (cpu : Cpu) (i : RType) → Fits cpu → Fits (subw cpu i)
unfolding subw
subw-Fits cpu i f =
    let a = cpu_read_reg-lt cpu i.rs1 f in
    let b = cpu_read_reg-lt cpu i.rs2 f in
    cpu_write_reg-Fits cpu i.rd _ f (sign_extend-lt _ 32 (omega arith))

sllw-Fits : (cpu : Cpu) (i : RType) → Fits cpu → Fits (sllw cpu i)
unfolding sllw
sllw-Fits cpu i f =
    let a = cpu_read_reg-lt cpu i.rs1 f in
    let b = cpu_read_reg-lt cpu i.rs2 f in
    cpu_write_reg-Fits cpu i.rd _ f (sign_extend-lt _ 32 (omega arith))

srlw-Fits : (cpu : Cpu) (i : RType) → Fits cpu → Fits (srlw cpu i)
unfolding srlw
srlw-Fits cpu i f =
    let a = cpu_read_reg-lt cpu i.rs1 f in
    let b = cpu_read_reg-lt cpu i.rs2 f in
    cpu_write_reg-Fits cpu i.rd _ f (sign_extend-lt _ 32 (quotient-lt _ _ (omega arith)))

sraw-Fits : (cpu : Cpu) (i : RType) → Fits cpu → Fits (sraw cpu i)
unfolding sraw
sraw-Fits cpu i f =
    let a = cpu_read_reg-lt cpu i.rs1 f in
    let b = cpu_read_reg-lt cpu i.rs2 f in
    cpu_write_reg-Fits cpu i.rd _ f (sign_extend-lt _ 32 (unsigned_32-lt _))

pub dispatch_op-Fits :
    (cpu : Cpu) (i : RType) → Fits cpu → i.raw < 2 ^ 64 → Fits (dispatch_op cpu i)
unfolding dispatch_op
dispatch_op-Fits cpu i f h = grind (
  arith,
  f,
  raise_exception-Fits cpu exc_illegal_instruction i.raw f (omega arith) h,
  add-Fits cpu i f,
  sub-Fits cpu i f,
  sll-Fits cpu i f,
  slt-Fits cpu i f,
  sltu-Fits cpu i f,
  xor_op-Fits cpu i f,
  srl-Fits cpu i f,
  sra-Fits cpu i f,
  or_op-Fits cpu i f,
  and_op-Fits cpu i f,
)

pub dispatch_op_32-Fits :
    (cpu : Cpu) (i : RType) → Fits cpu → i.raw < 2 ^ 64 → Fits (dispatch_op_32 cpu i)
unfolding dispatch_op_32
dispatch_op_32-Fits cpu i f h = grind (
  arith,
  f,
  raise_exception-Fits cpu exc_illegal_instruction i.raw f (omega arith) h,
  addw-Fits cpu i f,
  subw-Fits cpu i f,
  sllw-Fits cpu i f,
  srlw-Fits cpu i f,
  sraw-Fits cpu i f,
)
