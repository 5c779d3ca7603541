-- ===== src/Cpu/Exec/MExtension.antt =====
-- Multiplication and division: src/cpu/instructions/dispatchers/m_extension.c. The product of
-- `int32_t` in `mulw` wraps; C leaves an overflow undefined. The results of the word divisions
-- are cast to `int32_t` and sign-extended, so they are given as words.
pub mod Unsigned
use risc_v_virtual_machine.Common.{ℕ, ◌-◌, ◌*◌, ◌/◌, ◌%◌, ◌^◌}
use risc_v_virtual_machine.Common.{◌==◌, if◌then◌else◌, u32, u64}
use risc_v_virtual_machine.Common.{◌>>>◌}
use risc_v_virtual_machine.Common.{◌&&◌}
use risc_v_virtual_machine.Common.Int.{ℤ, pos, signed, unsigned, shift_right}
use risc_v_virtual_machine.Common.Int.{◌*ℤ◌, quot, rem as rem_ℤ}
use risc_v_virtual_machine.Cpu.{Cpu, cpu_read_reg, cpu_write_reg}
use risc_v_virtual_machine.Cpu.Trap.{raise_exception, exc_illegal_instruction}
use risc_v_virtual_machine.Cpu.Decode.{RType, sign_extend}

unfoldable pub mul : Cpu → RType → Cpu
mul cpu instruction =
    let rs1 = cpu_read_reg cpu instruction.rs1 in
    let rs2 = cpu_read_reg cpu instruction.rs2 in cpu_write_reg cpu instruction.rd (u64 (rs1 * rs2))

-- `(int64_t)(product >> 64)` of a 128-bit product.
abbrev high_half : ℤ → ℕ
high_half product = unsigned 64 (shift_right product 64)

unfoldable pub mulh : Cpu → RType → Cpu
mulh cpu instruction =
    let rs1 = cpu_read_reg cpu instruction.rs1 in
    let rs2 = cpu_read_reg cpu instruction.rs2 in
    cpu_write_reg cpu instruction.rd (high_half (signed 64 rs1 *ℤ signed 64 rs2))

unfoldable pub mulhsu : Cpu → RType → Cpu
mulhsu cpu instruction =
    let rs1 = cpu_read_reg cpu instruction.rs1 in
    let rs2 = cpu_read_reg cpu instruction.rs2 in
    cpu_write_reg cpu instruction.rd (high_half (signed 64 rs1 *ℤ pos rs2))

unfoldable pub mulhu : Cpu → RType → Cpu
mulhu cpu instruction =
    let rs1 = cpu_read_reg cpu instruction.rs1 in
    let rs2 = cpu_read_reg cpu instruction.rs2 in
    cpu_write_reg cpu instruction.rd ((rs1 * rs2) >>> 64)

-- INT64_MIN is the word 2 ^ 63, and -1 the word of ones.
unfoldable pub div : Cpu → RType → Cpu
div cpu instruction =
    let rs1 = cpu_read_reg cpu instruction.rs1 in
    let rs2 = cpu_read_reg cpu instruction.rs2 in
    let result =
      if rs1 == 2 ^ 63 && rs2 == 2 ^ 64 - 1
      then 2 ^ 63
      else if rs2 == 0
      then 0xFFFFFFFFFFFFFFFF
      else unsigned 64 (quot (signed 64 rs1) (signed 64 rs2)) in
    cpu_write_reg cpu instruction.rd result

unfoldable pub divu : Cpu → RType → Cpu
divu cpu instruction =
    let rs1 = cpu_read_reg cpu instruction.rs1 in
    let rs2 = cpu_read_reg cpu instruction.rs2 in
    cpu_write_reg cpu instruction.rd (if rs2 == 0 then 0xFFFFFFFFFFFFFFFF else rs1 / rs2)

unfoldable pub rem : Cpu → RType → Cpu
rem cpu instruction =
    let rs1 = cpu_read_reg cpu instruction.rs1 in
    let rs2 = cpu_read_reg cpu instruction.rs2 in
    let result =
      if rs1 == 2 ^ 63 && rs2 == 2 ^ 64 - 1
      then 0
      else if rs2 == 0
      then rs1
      else unsigned 64 (rem_ℤ (signed 64 rs1) (signed 64 rs2)) in
    cpu_write_reg cpu instruction.rd result

unfoldable pub remu : Cpu → RType → Cpu
remu cpu instruction =
    let rs1 = cpu_read_reg cpu instruction.rs1 in
    let rs2 = cpu_read_reg cpu instruction.rs2 in
    cpu_write_reg cpu instruction.rd (if rs2 == 0 then rs1 else rs1 % rs2)

unfoldable pub mulw : Cpu → RType → Cpu
mulw cpu instruction =
    let rs1 = cpu_read_reg cpu instruction.rs1 in
    let rs2 = cpu_read_reg cpu instruction.rs2 in
    cpu_write_reg cpu instruction.rd (sign_extend (u32 (u32 rs1 * u32 rs2)) 32)

unfoldable pub divw : Cpu → RType → Cpu
divw cpu instruction =
    let rs1 = u32 (cpu_read_reg cpu instruction.rs1) in
    let rs2 = u32 (cpu_read_reg cpu instruction.rs2) in
    let result =
      if rs1 == 2 ^ 31 && rs2 == 2 ^ 32 - 1
      then 2 ^ 31
      else if rs2 == 0
      then 0xFFFFFFFF
      else unsigned 32 (quot (signed 32 rs1) (signed 32 rs2)) in
    cpu_write_reg cpu instruction.rd (sign_extend result 32)

unfoldable pub divuw : Cpu → RType → Cpu
divuw cpu instruction =
    let rs1 = cpu_read_reg cpu instruction.rs1 in
    let rs2 = cpu_read_reg cpu instruction.rs2 in
    cpu_write_reg cpu instruction.rd
      (sign_extend (if u32 rs2 == 0 then 0xFFFFFFFF else u32 rs1 / u32 rs2) 32)

unfoldable pub remw : Cpu → RType → Cpu
remw cpu instruction =
    let rs1 = u32 (cpu_read_reg cpu instruction.rs1) in
    let rs2 = u32 (cpu_read_reg cpu instruction.rs2) in
    let result =
      if rs1 == 2 ^ 31 && rs2 == 2 ^ 32 - 1
      then 0
      else if rs2 == 0
      then rs1
      else unsigned 32 (rem_ℤ (signed 32 rs1) (signed 32 rs2)) in
    cpu_write_reg cpu instruction.rd (sign_extend result 32)

unfoldable pub remuw : Cpu → RType → Cpu
remuw cpu instruction =
    let rs1 = cpu_read_reg cpu instruction.rs1 in
    let rs2 = cpu_read_reg cpu instruction.rs2 in
    cpu_write_reg cpu instruction.rd
      (sign_extend (if u32 rs2 == 0 then u32 rs1 else u32 rs1 % u32 rs2) 32)

unfoldable pub dispatch_m_op : Cpu → RType → Cpu
dispatch_m_op cpu instruction =
    let funct3 = instruction.funct3 in
    if funct3 == 0x0
    then mul cpu instruction
    else if funct3 == 0x1
    then mulh cpu instruction
    else if funct3 == 0x2
    then mulhsu cpu instruction
    else if funct3 == 0x3
    then mulhu cpu instruction
    else if funct3 == 0x4
    then div cpu instruction
    else if funct3 == 0x5
    then divu cpu instruction
    else if funct3 == 0x6
    then rem cpu instruction
    else if funct3 == 0x7
    then remu cpu instruction
    else raise_exception cpu exc_illegal_instruction instruction.raw

unfoldable pub dispatch_m_op_32 : Cpu → RType → Cpu
dispatch_m_op_32 cpu instruction =
    let funct3 = instruction.funct3 in
    if funct3 == 0x0
    then mulw cpu instruction
    else if funct3 == 0x4
    then divw cpu instruction
    else if funct3 == 0x5
    then divuw cpu instruction
    else if funct3 == 0x6
    then remw cpu instruction
    else if funct3 == 0x7
    then remuw cpu instruction
    else raise_exception cpu exc_illegal_instruction instruction.raw
