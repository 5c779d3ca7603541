-- ===== src/Cpu/Decode/Encode.antt =====
-- Instructions of each format, laid out as the RISC-V manual does, and what src/cpu/instructions/
-- decoding.c finds in them.
use risc_v_virtual_machine.Common.{ℕ, ◌+◌, ◌-◌, ◌*◌, ◌%◌, ◌^◌, ◌<◌, ◌≡◌, refl, arith, ◌∙◌}
use risc_v_virtual_machine.Common.{if◌then◌else◌, field, ltb, bit_or, ◌<<<◌}
use risc_v_virtual_machine.Bits.{bit_or_add, bit_or_add_low, bit_and_pow, bit_lem}
use risc_v_virtual_machine.Cpu.Decode.{
  sign_extend, decode_i, decode_s, decode_b, decode_j, imm_s, imm_b, imm_j,
}

-- The 64-bit word of the signed number that the low `bits` digits of `imm` stand for.
abbrev pub extended : ℕ → ℕ → ℕ
extended imm bits = if ltb imm (2 ^ (bits - 1)) then imm else 2 ^ 64 - 2 ^ bits + imm

extend_12 : (imm : ℕ) → imm < 2 ^ 12 → sign_extend imm 12 ≡ extended imm 12
unfolding sign_extend
extend_12 imm h =
    rw (bit_and_pow imm 11, bit_lem imm 11, bit_or_add 12 (2 ^ 52 - 1) imm (2 ^ 64 - 2 ^ 12) refl h)
      (ground arith)

extend_13 : (imm : ℕ) → imm < 2 ^ 13 → sign_extend imm 13 ≡ extended imm 13
unfolding sign_extend
extend_13 imm h =
    rw (bit_and_pow imm 12, bit_lem imm 12, bit_or_add 13 (2 ^ 51 - 1) imm (2 ^ 64 - 2 ^ 13) refl h)
      (ground arith)

extend_21 : (imm : ℕ) → imm < 2 ^ 21 → sign_extend imm 21 ≡ extended imm 21
unfolding sign_extend
extend_21 imm h =
    rw (bit_and_pow imm 20, bit_lem imm 20, bit_or_add 21 (2 ^ 43 - 1) imm (2 ^ 64 - 2 ^ 21) refl h)
      (ground arith)

extend_32 : (imm : ℕ) → imm < 2 ^ 32 → sign_extend imm 32 ≡ extended imm 32
unfolding sign_extend
extend_32 imm h =
    rw (bit_and_pow imm 31, bit_lem imm 31, bit_or_add 32 (2 ^ 32 - 1) imm (2 ^ 64 - 2 ^ 32) refl h)
      (ground arith)

-- The layouts, with the digits of an immediate where the manual puts them.
unfoldable pub encode_i : ℕ → ℕ → ℕ → ℕ → ℕ → ℕ
encode_i opcode rd funct3 rs1 imm =
    opcode + rd * 2 ^ 7 + funct3 * 2 ^ 12 + rs1 * 2 ^ 15 + imm * 2 ^ 20

-- Decoding an I-type instruction that is laid out from fields that fit gives the fields back, and the
-- 12-bit immediate sign-extended to 64 bits.
pub decode_i-encode_i :
    (opcode rd funct3 rs1 imm : ℕ)
    → opcode < 128
    → rd < 32
    → funct3 < 8
    → rs1 < 32
    → imm < 2 ^ 12
    → decode_i (encode_i opcode rd funct3 rs1 imm) ≡ record {
      rd = rd;
      funct3 = funct3;
      rs1 = rs1;
      opcode = opcode;
      imm = extended imm 12;
      raw = encode_i opcode rd funct3 rs1 imm;
    }
unfolding encode_i decode_i
decode_i-encode_i opcode rd funct3 rs1 imm ho hd hf h1 hi =
    rw
      (extend_12 (field (opcode + rd * 2 ^ 7 + funct3 * 2 ^ 12 + rs1 * 2 ^ 15 + imm * 2 ^ 20) 20 12)
        (omega arith))
      (grind arith)

unfoldable pub encode_s : ℕ → ℕ → ℕ → ℕ → ℕ → ℕ
encode_s opcode funct3 rs1 rs2 imm =
    opcode
    + field imm 0 5 * 2 ^ 7
    + funct3 * 2 ^ 12
    + rs1 * 2 ^ 15
    + rs2 * 2 ^ 20
    + field imm 5 7 * 2 ^ 25

unfoldable pub encode_b : ℕ → ℕ → ℕ → ℕ → ℕ → ℕ
encode_b opcode funct3 rs1 rs2 imm =
    opcode
    + field imm 11 1 * 2 ^ 7
    + field imm 1 4 * 2 ^ 8
    + funct3 * 2 ^ 12
    + rs1 * 2 ^ 15
    + rs2 * 2 ^ 20
    + field imm 5 6 * 2 ^ 25
    + field imm 12 1 * 2 ^ 31

unfoldable pub encode_u : ℕ → ℕ → ℕ → ℕ
encode_u opcode rd imm = opcode + rd * 2 ^ 7 + imm * 2 ^ 12

unfoldable pub encode_j : ℕ → ℕ → ℕ → ℕ
encode_j opcode rd imm =
    opcode
    + rd * 2 ^ 7
    + field imm 12 8 * 2 ^ 12
    + field imm 11 1 * 2 ^ 20
    + field imm 1 10 * 2 ^ 21
    + field imm 20 1 * 2 ^ 31

join_s : (a b : ℕ) → a < 2 ^ 5 → bit_or a (b <<< 5) ≡ a + b * 2 ^ 5
join_s a b ha = bit_or_add_low 5 b a (b * 2 ^ 5) refl ha

join_b :
    (a b c d : ℕ)
    → a < 2 ^ 4
    → b < 2 ^ 6
    → c < 2
    → bit_or (bit_or (bit_or (a <<< 1) (b <<< 5)) (c <<< 11)) (d <<< 12)
      ≡ a * 2 + b * 2 ^ 5 + c * 2 ^ 11 + d * 2 ^ 12
join_b a b c d ha hb hc =
    rw
      (
        bit_or_add_low 5 b (a * 2) (b * 2 ^ 5) refl (omega arith),
        bit_or_add_low 11 c (a * 2 + b * 2 ^ 5) (c * 2 ^ 11) refl (omega arith),
        bit_or_add_low 12 d (a * 2 + b * 2 ^ 5 + c * 2 ^ 11) (d * 2 ^ 12) refl (omega arith),
      )
      refl

join_j :
    (a b c d : ℕ)
    → a < 2 ^ 10
    → b < 2
    → c < 2 ^ 8
    → bit_or (bit_or (bit_or (a <<< 1) (b <<< 11)) (c <<< 12)) (d <<< 20)
      ≡ a * 2 + b * 2 ^ 11 + c * 2 ^ 12 + d * 2 ^ 20
join_j a b c d ha hb hc =
    rw
      (
        bit_or_add_low 11 b (a * 2) (b * 2 ^ 11) refl (omega arith),
        bit_or_add_low 12 c (a * 2 + b * 2 ^ 11) (c * 2 ^ 12) refl (omega arith),
        bit_or_add_low 20 d (a * 2 + b * 2 ^ 11 + c * 2 ^ 12) (d * 2 ^ 20) refl (omega arith),
      )
      refl

imm_s-encode_s :
    (opcode funct3 rs1 rs2 imm : ℕ)
    → opcode < 128
    → funct3 < 8
    → rs1 < 32
    → rs2 < 32
    → imm < 2 ^ 12
    → imm_s (encode_s opcode funct3 rs1 rs2 imm) ≡ imm
unfolding encode_s
imm_s-encode_s opcode funct3 rs1 rs2 imm ho hf h1 h2 hi =
    let word = encode_s opcode funct3 rs1 rs2 imm in
    join_s (field word 7 5) (field word 25 7) (omega arith) ∙ omega arith

imm_b-encode_b :
    (opcode funct3 rs1 rs2 imm : ℕ)
    → opcode < 128
    → funct3 < 8
    → rs1 < 32
    → rs2 < 32
    → imm < 2 ^ 13
    → imm % 2 ≡ 0
    → imm_b (encode_b opcode funct3 rs1 rs2 imm) ≡ imm
unfolding encode_b
imm_b-encode_b opcode funct3 rs1 rs2 imm ho hf h1 h2 hi even =
    let word = encode_b opcode funct3 rs1 rs2 imm in
    join_b (field word 8 4) (field word 25 6) (field word 7 1) (field word 31 1) (omega arith)
      (omega arith) (omega arith)
    ∙ omega arith

imm_j-encode_j :
    (opcode rd imm : ℕ)
    → opcode < 128
    → rd < 32
    → imm < 2 ^ 21
    → imm % 2 ≡ 0
    → imm_j (encode_j opcode rd imm) ≡ imm
unfolding encode_j
imm_j-encode_j opcode rd imm ho hd hi even =
    let word = encode_j opcode rd imm in
    join_j (field word 21 10) (field word 20 1) (field word 12 8) (field word 31 1) (omega arith)
      (omega arith) (omega arith)
    ∙ omega arith

-- Decoding an S-type instruction that is laid out from fields that fit gives the fields back, and the
-- 12-bit immediate sign-extended to 64 bits.
pub decode_s-encode_s :
    (opcode funct3 rs1 rs2 imm : ℕ)
    → opcode < 128
    → funct3 < 8
    → rs1 < 32
    → rs2 < 32
    → imm < 2 ^ 12
    → decode_s (encode_s opcode funct3 rs1 rs2 imm) ≡ record {
      funct3 = funct3;
      rs1 = rs1;
      rs2 = rs2;
      opcode = opcode;
      imm = extended imm 12;
      raw = encode_s opcode funct3 rs1 rs2 imm;
    }
unfolding decode_s
decode_s-encode_s opcode funct3 rs1 rs2 imm ho hf h1 h2 hi =
    rw (imm_s-encode_s opcode funct3 rs1 rs2 imm ho hf h1 h2 hi, extend_12 imm hi)
      (unfold encode_s in grind arith)

-- Decoding a B-type instruction that is laid out from fields that fit gives the fields back, and the
-- even 13-bit immediate sign-extended to 64 bits.
pub decode_b-encode_b :
    (opcode funct3 rs1 rs2 imm : ℕ)
    → opcode < 128
    → funct3 < 8
    → rs1 < 32
    → rs2 < 32
    → imm < 2 ^ 13
    → imm % 2 ≡ 0
    → decode_b (encode_b opcode funct3 rs1 rs2 imm) ≡ record {
      funct3 = funct3;
      rs1 = rs1;
      rs2 = rs2;
      opcode = opcode;
      imm = extended imm 13;
      raw = encode_b opcode funct3 rs1 rs2 imm;
    }
unfolding decode_b
decode_b-encode_b opcode funct3 rs1 rs2 imm ho hf h1 h2 hi even =
    rw (imm_b-encode_b opcode funct3 rs1 rs2 imm ho hf h1 h2 hi even, extend_13 imm hi)
      (unfold encode_b in grind arith)

-- Decoding a J-type instruction that is laid out from fields that fit gives the fields back, and the
-- even 21-bit immediate sign-extended to 64 bits.
pub decode_j-encode_j :
    (opcode rd imm : ℕ)
    → opcode < 128
    → rd < 32
    → imm < 2 ^ 21
    → imm % 2 ≡ 0
    → decode_j (encode_j opcode rd imm)
      ≡ record { rd = rd; opcode = opcode; imm = extended imm 21; raw = encode_j opcode rd imm }
unfolding decode_j
decode_j-encode_j opcode rd imm ho hd hi even =
    rw (imm_j-encode_j opcode rd imm ho hd hi even, extend_21 imm hi)
      (unfold encode_j in grind arith)
