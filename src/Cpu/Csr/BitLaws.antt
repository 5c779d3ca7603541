-- ===== src/Cpu/Csr/BitLaws.antt =====
-- The digits of a register after `set_bit` and after a masked write.
use native.Mathlib.Nat.{one-le-pow, pow-le-pow_right}
use risc_v_virtual_machine.Common.{ℕ, ◌^◌, ◌≤◌, ◌<◌}
use risc_v_virtual_machine.Common.{◌≡◌, arith, ◌==◌, if◌then◌else◌}
use risc_v_virtual_machine.Common.{is_set, to_word, bit_and, not64, Bool-cases, inl, inr}
use risc_v_virtual_machine.Bits.{
  bit, bit-lt, bit-cases, bit-bit_or, bit-bit_and, bit-pow, bit-complement,
}
use risc_v_virtual_machine.Bits.{bit_or-lt, bit_and-lt, bit_and_pow}
use risc_v_virtual_machine.Cpu.Csr.Handlers.{set_bit, masked}

pub two_pow-lt : (n : ℕ) → n < 64 → 2 ^ n < 2 ^ 64
two_pow-lt n h =
    let below : 2 ^ n ≤ 2 ^ 63 = pow-le-pow_right (omega arith) {j = 63} (omega arith) in
    omega arith

pub set_bit-lt : (v n b : ℕ) → v < 2 ^ 64 → n < 64 → set_bit v n b < 2 ^ 64
unfolding set_bit
set_bit-lt v n b h k =
    ground (arith, bit_or-lt 64 v (2 ^ n) h (two_pow-lt n k), bit_and-lt 64 v (not64 (2 ^ n)) h)

-- `set_bit` sets the digit at its place and leaves the others.
pub bit-set_bit :
    (v n b i : ℕ)
    → n < 64
    → i < 64
    → bit (set_bit v n b) i ≡ (if i == n then to_word (is_set b) else bit v i)
unfolding set_bit
bit-set_bit v n b i hn hi = elim (Bool-cases (is_set b)) [
  | inl on ↦ rw (on, bit-bit_or v (2 ^ n) i, bit-pow n i) (ground (arith, bit-lt v i))
  | inr off ↦
      rw (off, bit-bit_and v (not64 (2 ^ n)) i)
        (ground (arith, bit-lt v i, bit-pow n i, bit-complement 64 (2 ^ n) i (two_pow-lt n hn) hi))
]

pub masked-lt :
    (old mask value : ℕ) → old < 2 ^ 64 → value < 2 ^ 64 → masked old mask value < 2 ^ 64
unfolding masked
masked-lt old mask value p q =
    bit_or-lt 64 (bit_and old (not64 mask)) (bit_and value mask) (bit_and-lt 64 old (not64 mask) p)
      (bit_and-lt 64 value mask q)

-- A masked write takes the digits under the mask from the value and the others from the old word.
pub bit-masked :
    (old mask value i : ℕ)
    → mask < 2 ^ 64
    → i < 64
    → bit (masked old mask value) i ≡ (if is_set (bit mask i) then bit value i else bit old i)
unfolding masked
bit-masked old mask value i m h =
    rw
      (
        bit-bit_or (bit_and old (not64 mask)) (bit_and value mask) i,
        bit-bit_and old (not64 mask) i,
        bit-bit_and value mask i,
      )
      (ground (arith, bit-lt old i, bit-lt value i, bit-lt mask i, bit-complement 64 mask i m h))

-- A test of one digit by its mask.
pub is_set-bit_and_pow : (x k : ℕ) → is_set (bit_and x (2 ^ k)) ≡ is_set (bit x k)
is_set-bit_and_pow x k = elim (bit-cases x k) [
  | inl off ↦ rw (bit_and_pow x k, off) (ground arith)
  | inr on ↦ rw (bit_and_pow x k, on) (ground (arith, one-le-pow k 2 (omega arith)))
]
