-- ===== src/Examples/Execution.antt =====
-- Decoding, registers, loads, stores and instructions at concrete inputs.
use risc_v_virtual_machine.Common.{
  ℕ, ◌+◌, ◌-◌, ◌*◌, ◌^◌, ◌<◌, ◌≡◌, ◌⊎◌, ◌↔◌, refl, arith, true, false, if◌then◌else◌, ◌==◌,
}
use risc_v_virtual_machine.Memory.{memory_init, valid_access}
use risc_v_virtual_machine.Memory.Bytes.{IsBytes, double}
use risc_v_virtual_machine.Devices.Uart.{uart_init}
use risc_v_virtual_machine.Bus.{Platform, vm_bus}
use risc_v_virtual_machine.Cpu.{Machine, cpu_read_reg, cpu_invalidate_reservation}
use risc_v_virtual_machine.Cpu.Registers.{Shares, cpu_invalidate_reservation-Shares}
use risc_v_virtual_machine.Cpu.Decode.{RType, AType, decode_b, decode_j}
use risc_v_virtual_machine.Cpu.Decode.Encode.{
  extended, encode_b, encode_j, decode_b-encode_b, decode_j-encode_j,
}
use risc_v_virtual_machine.Cpu.Access.Untranslated.{cpu_load, cpu_store, cpu_load-cpu_store}
use risc_v_virtual_machine.Cpu.Exec.MExtension.{mul, mulhu, divu, remu}
use risc_v_virtual_machine.Cpu.Exec.MExtension.Unsigned.{mulhu-mul, divu-remu}

-- Register 10 holds an address in RAM, and registers 11 and 12 numbers; eight bytes are reserved.
abbrev bare_machine : Machine Platform
bare_machine = record {
  cpu = record {
    regs = λ r.
        if r == 10 then 0x80000100 else if r == 11 then 2 ^ 63 + 5 else if r == 12 then 6 else 0;
    csrs = λ _. 0;
    pc = 0x80000000;
    priviledge = 3;
    reservation = record { valid = true; phys_addr = 0x80000200; size = 8 };
    trap_taken = false;
    pc_written = false;
  };
  ctx = record {
    ram = memory_init;
    timer = record { msip = 0; mtime = 0; mtimecmp = 0 };
    uart = uart_init;
  };
}

zeroed : IsBytes memory_init
unfolding memory_init
zeroed = record { byte_lt = λ i. omega arith }

cpu_load-cpu_store_example :
    cpu_load double (cpu_store double bare_machine 0x80000100 77).1 0x80000100
    ≡ (record { success = true; value = 77 }, (cpu_store double bare_machine 0x80000100 77).1)
cpu_load-cpu_store_example =
    cpu_load-cpu_store double bare_machine 0x80000100 77 refl zeroed (unfold valid_access in refl)
      (omega arith)

cpu_invalidate_reservation-Shares_example :
    ((cpu_invalidate_reservation bare_machine.cpu 0x80000206 4).reservation.valid ≡ true)
    ↔ ((true ≡ true) × ((x : ℕ) → ¬ Shares 0x80000206 4 0x80000200 8 x))
cpu_invalidate_reservation-Shares_example =
    cpu_invalidate_reservation-Shares bare_machine.cpu 0x80000206 4 (omega arith) (omega arith)
      (omega arith) (omega arith)

decode_b-encode_b_example : decode_b (encode_b 0x63 1 6 7 0x1FFE) ≡ record {
  funct3 = 1;
  rs1 = 6;
  rs2 = 7;
  opcode = 0x63;
  imm = extended 0x1FFE 13;
  raw = encode_b 0x63 1 6 7 0x1FFE;
}
decode_b-encode_b_example =
    decode_b-encode_b 0x63 1 6 7 0x1FFE (omega arith) (omega arith) (omega arith) (omega arith)
      (omega arith) (omega arith)

decode_j-encode_j_example :
    decode_j (encode_j 0x6F 1 0x12344)
    ≡ record { rd = 1; opcode = 0x6F; imm = extended 0x12344 21; raw = encode_j 0x6F 1 0x12344 }
decode_j-encode_j_example =
    decode_j-encode_j 0x6F 1 0x12344 (omega arith) (omega arith) (omega arith) (omega arith)

abbrev reserve : AType
reserve = record { rd = 5; funct3 = 3; rs1 = 10; rs2 = 0; rl = 0; aq = 0; funct5 = 2; raw = 0 }

abbrev conditional : AType
conditional = record { rd = 6; funct3 = 3; rs1 = 10; rs2 = 12; rl = 0; aq = 0; funct5 = 3; raw = 0 }

abbrev multiply : RType
multiply = record { rd = 5; funct3 = 0; rs1 = 11; rs2 = 12; funct7 = 1; opcode = 0x33; raw = 0 }

mulhu-mul_example :
    cpu_read_reg (mulhu bare_machine.cpu multiply) 5 * 2 ^ 64
      + cpu_read_reg (mul bare_machine.cpu multiply) 5
    ≡ cpu_read_reg bare_machine.cpu 11 * cpu_read_reg bare_machine.cpu 12
mulhu-mul_example = mulhu-mul bare_machine.cpu multiply refl

divu-remu_example :
    let a = cpu_read_reg bare_machine.cpu 11 in
    let b = cpu_read_reg bare_machine.cpu 12 in
    let q = cpu_read_reg (divu bare_machine.cpu multiply) 5 in
    let r = cpu_read_reg (remu bare_machine.cpu multiply) 5 in
    ((b ≡ 0) × (q ≡ 2 ^ 64 - 1) × (r ≡ a)) ⊎ ((b * q + r ≡ a) × (r < b))
divu-remu_example = divu-remu bare_machine.cpu multiply refl
