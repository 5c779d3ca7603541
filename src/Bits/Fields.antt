-- ===== src/Bits/Fields.antt =====
-- Masks of adjacent ones and fields joined by `|`, as arithmetic.
use Prim.Native.Nat.{bit_and-bitwise}
use native.Mathlib.Nat.{pow-suc, pow-succ', one-le-pow, mul_assoc, div-div-eq-div-mul}
use native.Mathlib.Nat.{div-one, mul-div_cancel}
use mathlib.Core.Path.{subst}
use risc_v_virtual_machine.Bits.Digits.{bit, bit_and-zero}
use risc_v_virtual_machine.Bits.Step.{bit_and_step, bit_or_step, bit_xor_step}
use risc_v_virtual_machine.Common.{ℕ, zero, suc, ◌+◌, ◌-◌, ◌*◌, ◌/◌, ◌%◌, ◌^◌, ◌≤◌, ◌<◌}
use risc_v_virtual_machine.Common.{bit_and, bit_or, bit_xor, ◌≡◌, refl, ap, sym, ◌∙◌, arith}
use risc_v_virtual_machine.Common.{max, field, ◌>>>◌, zero_or_pos, inl, inr}

bit_or-zero_below : (n a : ℕ) → a ≤ n → bit_or a 0 ≡ a
bit_or-zero_below zero zero h = refl
bit_or-zero_below zero (suc a) h = absurd (omega arith)
bit_or-zero_below (suc n) a h = elim (zero_or_pos a) [
  | inl e ↦ rw e
  | inr p ↦ omega (arith, bit_or_step a 0, bit_or-zero_below n (a / 2) (omega arith))
]

pub bit_or-zero : (a : ℕ) → bit_or a 0 ≡ a
bit_or-zero a = bit_or-zero_below a a (omega arith)

mod_double : (m a : ℕ) → 0 < m → a % (m * 2) ≡ a / 2 % m * 2 + a % 2
mod_double m a h = grind arith

-- A mask of `k` low ones is the remainder by `2 ^ k`.
pub bit_and_mask : (k a : ℕ) → bit_and a (2 ^ k - 1) ≡ a % 2 ^ k
bit_and_mask zero a = omega (arith, bit_and-zero a)
bit_and_mask (suc k) a = omega (
  arith,
  bit_and_step a (2 ^ suc k - 1),
  halved,
  odd,
  ap (λ (m : ℕ). a % m) (pow-suc 2 k),
  mod_double (2 ^ k) a (one-le-pow k 2 (omega arith)),
  ap (λ (m : ℕ). bit_and (a / 2) m) halved,
  bit_and_mask k (a / 2),
)
  where
    halved : (2 ^ suc k - 1) / 2 ≡ 2 ^ k - 1
    halved = omega (arith, pow-suc 2 k)

    odd : (2 ^ suc k - 1) % 2 ≡ 1
    odd = omega (arith, pow-suc 2 k, one-le-pow k 2 (omega arith))

-- `(x >> lo) & ((1 << width) - 1)` is the field of `x`.
pub field_lem : (x lo width : ℕ) → bit_and (x >>> lo) (2 ^ width - 1) ≡ field x lo width
field_lem x lo width = bit_and_mask width (x / 2 ^ lo)

-- `|` adds where the right side stays below the lowest one of the left side.
pub bit_or_add : (k q r x : ℕ) → x ≡ q * 2 ^ k → r < 2 ^ k → bit_or x r ≡ x + r
bit_or_add zero q r x e h =
    let none_left : r ≡ 0 = omega arith in rw none_left (omega (arith, bit_or-zero x))
bit_or_add (suc k) q r x e h = omega (
  arith,
  even,
  bit_or_step x r,
  bit_or_add k q (r / 2) (x / 2) (omega (arith, even)) (omega (arith, pow-suc 2 k)),
)
  where
    even : x ≡ q * 2 ^ k * 2
    even = e ∙ ap (λ (m : ℕ). q * m) (pow-suc 2 k) ∙ sym (mul_assoc q (2 ^ k) 2)

bit_or_comm_below : (n a b : ℕ) → a + b ≤ n → bit_or a b ≡ bit_or b a
bit_or_comm_below zero a b h =
    let a_zero : a ≡ 0 = omega arith in let b_zero : b ≡ 0 = omega arith in rw (a_zero, b_zero) refl
bit_or_comm_below (suc n) a b h = elim (zero_or_pos (a + b)) [
  | inl e ↦
      let a_zero : a ≡ 0 = omega arith in
      let b_zero : b ≡ 0 = omega arith in rw (a_zero, b_zero) refl
  | inr p ↦
      omega
        (arith, bit_or_step a b, bit_or_step b a, bit_or_comm_below n (a / 2) (b / 2) (omega arith))
]

bit_or_comm : (a b : ℕ) → bit_or a b ≡ bit_or b a
bit_or_comm a b = bit_or_comm_below (a + b) a b (omega arith)

pub bit_or_add_low : (k q r x : ℕ) → x ≡ q * 2 ^ k → r < 2 ^ k → bit_or r x ≡ r + x
bit_or_add_low k q r x e h = omega (arith, bit_or_comm r x, bit_or_add k q r x e h)

-- The or and the and of words of one width have that width.
pub bit_or-lt : (w a b : ℕ) → a < 2 ^ w → b < 2 ^ w → bit_or a b < 2 ^ w
bit_or-lt zero a b p q =
    let a_zero : a ≡ 0 = omega arith in
    let b_zero : b ≡ 0 = omega arith in rw (a_zero, b_zero) (omega arith)
bit_or-lt (suc w) a b p q = omega (
  arith,
  bit_or_step a b,
  pow-suc 2 w,
  bit_or-lt w (a / 2) (b / 2) (omega (arith, pow-suc 2 w)) (omega (arith, pow-suc 2 w)),
)

pub bit_and-lt : (w a b : ℕ) → a < 2 ^ w → bit_and a b < 2 ^ w
bit_and-lt zero a b p =
    let a_zero : a ≡ 0 = omega arith in rw a_zero (simp bit_and-bitwise (omega arith))
bit_and-lt (suc w) a b p = omega (
  arith,
  bit_and_step a b,
  pow-suc 2 w,
  bit_and-lt w (a / 2) (b / 2) (omega (arith, pow-suc 2 w)),
)

pub bit_xor-lt : (w a b : ℕ) → a < 2 ^ w → b < 2 ^ w → bit_xor a b < 2 ^ w
bit_xor-lt zero a b p q =
    let a_zero : a ≡ 0 = omega arith in
    let b_zero : b ≡ 0 = omega arith in rw (a_zero, b_zero) (omega arith)
bit_xor-lt (suc w) a b p q = omega (
  arith,
  bit_xor_step a b,
  pow-suc 2 w,
  bit_xor-lt w (a / 2) (b / 2) (omega (arith, pow-suc 2 w)) (omega (arith, pow-suc 2 w)),
)

-- A shift to the right goes inside the and.
pub bit_and-div : (k a b : ℕ) → bit_and a b / 2 ^ k ≡ bit_and (a / 2 ^ k) (b / 2 ^ k)
bit_and-div zero a b = simp div-one
bit_and-div (suc k) a b =
    let half : bit_and a b / 2 ≡ bit_and (a / 2) (b / 2) = omega (arith, bit_and_step a b) in
    rw
      (
        pow-succ' 2 k,
        ← div-div-eq-div-mul (bit_and a b) 2 (2 ^ k),
        ← div-div-eq-div-mul a 2 (2 ^ k),
        ← div-div-eq-div-mul b 2 (2 ^ k),
        half,
      )
      (bit_and-div k (a / 2) (b / 2))

-- `(x & (((1 << width) - 1) << lo)) >> lo` is the field of `x` too.
pub masked_field :
    (x lo width : ℕ) → bit_and x ((2 ^ width - 1) * 2 ^ lo) / 2 ^ lo ≡ field x lo width
masked_field x lo width =
    rw
      (
        bit_and-div lo x ((2 ^ width - 1) * 2 ^ lo),
        mul-div_cancel (2 ^ width - 1) (one-le-pow lo 2 (omega arith)),
      )
      (bit_and_mask width (x / 2 ^ lo))

-- Setting a digit that is 0 adds the power of two, and one that is 1 changes nothing.
pub bit_or_pow : (x k : ℕ) → bit_or x (2 ^ k) ≡ x + (1 - bit x k) * 2 ^ k
unfolding bit
bit_or_pow x zero = omega (arith, bit_or_step x 1, bit_or-zero (x / 2))
bit_or_pow x (suc k) =
    let half : 2 ^ suc k / 2 ≡ 2 ^ k = omega (arith, pow-suc 2 k) in
    let step : bit_or x (2 ^ suc k) ≡ bit_or (x / 2) (2 ^ k) * 2 + max (x % 2) (2 ^ suc k % 2) =
      subst (λ h. bit_or x (2 ^ suc k) ≡ bit_or (x / 2) h * 2 + max (x % 2) (2 ^ suc k % 2)) half
        (bit_or_step x (2 ^ suc k)) in
    omega (
      arith,
      step,
      pow-suc 2 k,
      bit_or_pow (x / 2) k,
      ap (λ (m : ℕ). (1 - bit (x / 2) k) * m) (pow-suc 2 k),
    )
