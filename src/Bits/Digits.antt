-- ===== src/Bits/Digits.antt =====
-- `bit x i` is the digit of `x` at place `i`: `(x >> i) & 1`.
use native.Mathlib.Nat.{pow-suc, pow-succ', one-le-pow, div-div-eq-div-mul}
use risc_v_virtual_machine.Bits.Step.{bit_and_step, bit_or_step, bit_xor_step}
use risc_v_virtual_machine.Common.{ℕ, zero, suc, ◌+◌, ◌-◌, ◌/◌, ◌%◌, ◌^◌, ◌≤◌, ◌<◌, min, max}
use risc_v_virtual_machine.Common.{
  bit_and, bit_or, bit_xor, ◌≡◌, refl, arith, ap, sym, zero_or_pos, inl, inr, ◌⊎◌, ◌*◌,
}
use risc_v_virtual_machine.Common.{◌==◌, if◌then◌else◌}

unfoldable pub bit : ℕ → ℕ → ℕ
bit x zero = x % 2
bit x (suc i) = bit (x / 2) i

pub bit-lt : (x i : ℕ) → bit x i < 2
unfolding bit
bit-lt x zero = omega arith
bit-lt x (suc i) = bit-lt (x / 2) i

pub bit-cases : (x i : ℕ) → (bit x i ≡ 0) ⊎ (bit x i ≡ 1)
bit-cases x i = omega (arith, bit-lt x i)

pub bit-bit_and : (a b i : ℕ) → bit (bit_and a b) i ≡ min (bit a i) (bit b i)
unfolding bit
bit-bit_and a b zero = omega (arith, bit_and_step a b)
bit-bit_and a b (suc i) =
    let half : bit_and a b / 2 ≡ bit_and (a / 2) (b / 2) = omega (arith, bit_and_step a b) in
    rw half (bit-bit_and (a / 2) (b / 2) i)

pub bit-bit_or : (a b i : ℕ) → bit (bit_or a b) i ≡ max (bit a i) (bit b i)
unfolding bit
bit-bit_or a b zero = omega (arith, bit_or_step a b)
bit-bit_or a b (suc i) =
    let half : bit_or a b / 2 ≡ bit_or (a / 2) (b / 2) = omega (arith, bit_or_step a b) in
    rw half (bit-bit_or (a / 2) (b / 2) i)

pub bit-bit_xor : (a b i : ℕ) → bit (bit_xor a b) i ≡ (bit a i + bit b i) % 2
unfolding bit
bit-bit_xor a b zero = omega (arith, bit_xor_step a b)
bit-bit_xor a b (suc i) =
    let half : bit_xor a b / 2 ≡ bit_xor (a / 2) (b / 2) = omega (arith, bit_xor_step a b) in
    rw half (bit-bit_xor (a / 2) (b / 2) i)

pub bit-zero : (i : ℕ) → bit 0 i ≡ 0
unfolding bit
bit-zero zero = refl
bit-zero (suc i) = bit-zero i

-- The digits of a power of two, and of the complement within a width.
pub bit-pow : (k i : ℕ) → bit (2 ^ k) i ≡ (if i == k then 1 else 0)
unfolding bit
bit-pow zero zero = refl
bit-pow zero (suc i) = ground (arith, bit-zero i)
bit-pow (suc k) zero = ground (arith, pow-suc 2 k)
bit-pow (suc k) (suc i) =
    let half : 2 ^ suc k / 2 ≡ 2 ^ k = omega (arith, pow-suc 2 k) in
    rw half (ground (arith, bit-pow k i))

pub bit-complement : (w x i : ℕ) → x < 2 ^ w → i < w → bit (2 ^ w - 1 - x) i + bit x i ≡ 1
unfolding bit
bit-complement zero x i h k = absurd (omega arith)
bit-complement (suc w) x zero h k = omega (arith, pow-suc 2 w, one-le-pow w 2)
bit-complement (suc w) x (suc i) h k =
    let half : (2 ^ suc w - 1 - x) / 2 ≡ 2 ^ w - 1 - x / 2 = omega (arith, pow-suc 2 w) in
    rw half (bit-complement w (x / 2) i (omega (arith, pow-suc 2 w)) (omega arith))

-- Beyond its width a word has no digit.
pub bit-above : (w x i : ℕ) → x < 2 ^ w → w ≤ i → bit x i ≡ 0
unfolding bit
bit-above zero x zero h k = omega arith
bit-above zero x (suc i) h k = bit-above zero (x / 2) i (omega arith) (omega arith)
bit-above (suc w) x zero h k = absurd (omega arith)
bit-above (suc w) x (suc i) h k = bit-above w (x / 2) i (omega (arith, pow-suc 2 w)) (omega arith)

-- Two words of one width with the same digits are the same word.
pub eq_of_bits : (w x y : ℕ) → x < 2 ^ w → y < 2 ^ w → ((i : ℕ) → i < w → bit x i ≡ bit y i) → x ≡ y
unfolding bit
eq_of_bits zero x y hx hy h = omega arith
eq_of_bits (suc w) x y hx hy h =
    let high : x / 2 ≡ y / 2 =
      eq_of_bits w (x / 2) (y / 2) (omega (arith, pow-suc 2 w)) (omega (arith, pow-suc 2 w))
        (λ i k. h (suc i) (omega arith)) in
    let low : x % 2 ≡ y % 2 = h zero (omega arith) in omega arith

pub bit_lem : (x i : ℕ) → bit x i ≡ x / 2 ^ i % 2
unfolding bit
bit_lem x zero = omega arith
bit_lem x (suc i) = rw (pow-succ' 2 i, ← div-div-eq-div-mul x 2 (2 ^ i)) (bit_lem (x / 2) i)

-- A field of one or two digits.
pub field_one : (x k : ℕ) → x / 2 ^ k % 2 ≡ bit x k
field_one x k = sym (bit_lem x k)

pub field_two : (x k : ℕ) → x / 2 ^ k % 4 ≡ bit x k + 2 * bit x (suc k)
field_two x k = omega (
  arith,
  bit_lem x k,
  bit_lem x (suc k),
  ap (λ (p : ℕ). x / p) (pow-suc 2 k),
  div-div-eq-div-mul x (2 ^ k) 2,
)

bit_and-zero_below : (n a : ℕ) → a ≤ n → bit_and a 0 ≡ 0
bit_and-zero_below zero zero h = refl
bit_and-zero_below zero (suc a) h = absurd (omega arith)
bit_and-zero_below (suc n) a h = elim (zero_or_pos a) [
  | inl e ↦ rw e
  | inr p ↦ omega (arith, bit_and_step a 0, bit_and-zero_below n (a / 2) (omega arith))
]

pub bit_and-zero : (a : ℕ) → bit_and a 0 ≡ 0
bit_and-zero a = bit_and-zero_below a a (omega arith)

-- A mask of one digit.
pub bit_and_pow : (x k : ℕ) → bit_and x (2 ^ k) ≡ bit x k * 2 ^ k
unfolding bit
bit_and_pow x zero = omega (arith, bit_and_step x 1, bit_and-zero (x / 2))
bit_and_pow x (suc k) = omega (
  arith,
  bit_and_step x (2 ^ suc k),
  pow-suc 2 k,
  ap (λ (m : ℕ). bit_and (x / 2) m) even,
  bit_and_pow (x / 2) k,
  ap (λ (m : ℕ). bit (x / 2) k * m) (pow-suc 2 k),
)
  where
    even : 2 ^ suc k / 2 ≡ 2 ^ k
    even = omega (arith, pow-suc 2 k)
