-- ===== src/Cpu/Fits/Values.antt =====
-- The widths of the values that the instructions compute, in src/cpu/instructions.
use native.Mathlib.Nat.{div-le_self, mod-le, mul-le-mul_left}
use risc_v_virtual_machine.Common.{
  ℕ, ◌-◌, arith, ◌<◌, ◌≤◌, ◌^◌, ◌*◌, ◌/◌, ◌%◌, Bool, true, false, if◌then◌else◌, is_set, bit_and,
}
use risc_v_virtual_machine.Common.Int.{ℤ, pos, negsuc, unsigned}
use risc_v_virtual_machine.Bits.{bit_or-lt}
use risc_v_virtual_machine.Cpu.Decode.{sign_extend}

pub quotient-lt : (x k : ℕ) → x < 2 ^ 64 → x / k < 2 ^ 64
quotient-lt x k h = omega (arith, div-le_self x k)

pub if-lt : (test : Bool) (x y : ℕ) → x < 2 ^ 64 → y < 2 ^ 64 → (if test then x else y) < 2 ^ 64
if-lt true x y h k = h
if-lt false x y h k = k

pub unsigned_64-lt : (z : ℤ) → unsigned 64 z < 2 ^ 64
unsigned_64-lt (pos n) = omega arith
unsigned_64-lt (negsuc n) = omega arith

pub unsigned_32-lt : (z : ℤ) → unsigned 32 z < 2 ^ 64
unsigned_32-lt (pos n) = omega arith
unsigned_32-lt (negsuc n) = omega arith

pub sign_extend-lt : (imm bits : ℕ) → imm < 2 ^ 64 → sign_extend imm bits < 2 ^ 64
unfolding sign_extend
sign_extend-lt imm bits h =
    if-lt (is_set (bit_and imm (2 ^ (bits - 1)))) _ _ (bit_or-lt 64 _ imm (omega arith) h) h

pub remainder-lt : (x k : ℕ) → x < 2 ^ 64 → x % k < 2 ^ 64
remainder-lt x k h = omega (arith, mod-le x k)

-- The high word of a product of two words.
pub product_high-lt : (x y : ℕ) → x < 2 ^ 64 → y < 2 ^ 64 → x * y / 2 ^ 64 < 2 ^ 64
product_high-lt x y h k =
    let bounded : x * y ≤ x * 2 ^ 64 = mul-le-mul_left x (omega arith) in omega arith
