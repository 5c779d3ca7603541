-- ===== src/Bits/Step.antt =====
-- The native operations stand for a recursion on binary digits with fuel. The fuel is enough at
-- once, which leaves one equation for the lowest digit.
use Prim.Native.Nat.{digits, differ, bit_and-bitwise, bit_or-bitwise, bit_xor-bitwise}
use risc_v_virtual_machine.Common.{ℕ, zero, suc, ◌+◌, ◌*◌, ◌/◌, ◌%◌, ◌≤◌, ◌<◌, min, max}
use risc_v_virtual_machine.Common.{bit_and, bit_or, bit_xor, ◌≡◌, refl, sym, ap, ◌∙◌, arith}

module _ (rest : ℕ → ℕ) (op : ℕ → ℕ → ℕ) where
  -- With no digit left on one side the fuel does not matter.
  no_digits_left : (fuel b : ℕ) → digits rest op fuel zero b ≡ rest b
  no_digits_left zero b = refl
  no_digits_left (suc fuel) b = refl

  enough_fuel :
      (a b more fuel : ℕ) → a ≤ fuel → a ≤ more → digits rest op more a b ≡ digits rest op fuel a b
  enough_fuel zero b more fuel h k = no_digits_left more b ∙ sym (no_digits_left fuel b)
  enough_fuel (suc a) b zero fuel h k = absurd (omega arith)
  enough_fuel (suc a) b (suc more) zero h k = absurd (omega arith)
  enough_fuel (suc a) b (suc more) (suc fuel) h k =
      ap (λ (high : ℕ). high * 2 + op (suc a % 2) (b % 2))
        (enough_fuel (suc a / 2) (b / 2) more fuel (omega arith) (omega arith))

  halved :
      (a b : ℕ)
      → digits rest op a (suc a / 2) (b / 2) ≡ digits rest op (suc a / 2) (suc a / 2) (b / 2)
  halved a b = enough_fuel (suc a / 2) (b / 2) a (suc a / 2) (omega arith) (omega arith)

pub bit_or_step : (a b : ℕ) → bit_or a b ≡ bit_or (a / 2) (b / 2) * 2 + max (a % 2) (b % 2)
bit_or_step zero b = omega (arith, bit_or-bitwise 0 b, bit_or-bitwise 0 (b / 2))
bit_or_step (suc a) b = simp bit_or-bitwise (omega (arith, halved (λ y. y) max a b))

-- The exclusive or of two digits is their sum without the carry.
differ_lem : (a b : ℕ) → a < 2 → b < 2 → differ a b ≡ (a + b) % 2
differ_lem zero b p q = omega arith
differ_lem (suc zero) zero p q = refl
differ_lem (suc zero) (suc zero) p q = refl
differ_lem (suc zero) (suc (suc b)) p q = absurd (omega arith)
differ_lem (suc (suc a)) b p q = absurd (omega arith)

pub bit_xor_step : (a b : ℕ) → bit_xor a b ≡ bit_xor (a / 2) (b / 2) * 2 + (a % 2 + b % 2) % 2
bit_xor_step zero b = simp bit_xor-bitwise (omega arith)
bit_xor_step (suc a) b = simp bit_xor-bitwise (
    omega (
      arith,
      halved (λ y. y) differ a b,
      differ_lem (suc a % 2) (b % 2) (omega arith) (omega arith),
    ))

pub bit_and_step : (x y : ℕ) → bit_and x y ≡ bit_and (x / 2) (y / 2) * 2 + min (x % 2) (y % 2)
bit_and_step zero y = simp bit_and-bitwise (omega arith)
bit_and_step (suc x) y = simp bit_and-bitwise (omega (arith, halved (λ _. 0) min x y))
