-- ===== src/Debugger/Numbers/Hex.antt =====
-- The addresses that the debugger prints are read back: `strtoll` on the digits of `printf`.
use mathlib.Core.List.{append_assoc, append-nil}
use native.Mathlib.Nat.{pow-suc}
use risc_v_virtual_machine.Common.{
  ℕ, zero, suc, ◌+◌, ◌-◌, ◌*◌, ◌/◌, ◌%◌, ◌^◌, ◌≤◌, ◌<◌, List, [], ◌∷◌, ◌++◌, ◌≡◌, refl, ◌∙◌, sym,
  ap, arith, ◌==◌, true, false, ltb, length, inl, inr, ◌⊎◌,
}
use risc_v_virtual_machine.Common.Text.{codes}
use risc_v_virtual_machine.Debugger.Text.{space, digit, print_digits, hex, zeros, padded_hex}
use risc_v_virtual_machine.Debugger.Text.Words.{Word, last, more}
use risc_v_virtual_machine.Debugger.Numbers.{
  digit_value, read_digits, read_unsigned, read_signed, skip_blanks, strtoll, positive,
}

digit_value-digit : (d : ℕ) → d < 16 → digit_value (digit d) ≡ d
digit_value-digit d h = ground (arith, h)

digit_not_space : (d : ℕ) → (digit d == space) ≡ false
digit_not_space d = ground arith

read_digit :
    (value d m : ℕ) (rest : List ℕ)
    → d < 16
    → value * 16 + d ≡ m
    → read_digits 16 value (digit d ∷ rest) ≡ read_digits 16 m rest
unfolding read_digits
read_digit value d m rest h e =
    rw (digit_value-digit d h) (ground (arith, h)) ∙ ap (λ v. read_digits 16 v rest) e

one_digit_or_more : (n : ℕ) → (ltb n 16 ≡ true) × (n < 16) ⊎ (ltb n 16 ≡ false) × (16 ≤ n)
one_digit_or_more n = ground arith

read_digits-print_digits :
    (fuel n : ℕ) (rest : List ℕ)
    → n < 16 ^ suc fuel
    → read_digits 16 0 (print_digits 16 (suc fuel) n ++ rest) ≡ read_digits 16 n rest
unfolding print_digits
read_digits-print_digits zero n rest h = elim (one_digit_or_more n) [
  | inl (e, l) ↦ rw e (read_digit 0 n n rest l (omega arith))
  | inr (e, l) ↦ absurd (omega arith)
]
read_digits-print_digits (suc fuel) n rest h = elim (one_digit_or_more n) [
  | inl (e, l) ↦ rw e (read_digit 0 n n rest l (omega arith))
  | inr (e, l) ↦
      let front : n / 16 < 16 ^ suc fuel = omega (arith, pow-suc 16 (suc fuel)) in
      rw e (
        rw (append_assoc (print_digits 16 (suc fuel) (n / 16)) (digit (n % 16) ∷ []) rest) (
          read_digits-print_digits fuel (n / 16) (digit (n % 16) ∷ rest) front
          ∙ read_digit (n / 16) (n % 16) n rest (omega arith) (omega arith)))
]

read_digits-zeros :
    (k : ℕ) (text : List ℕ) → read_digits 16 0 (zeros k ++ text) ≡ read_digits 16 0 text
unfolding read_digits
read_digits-zeros zero text = refl
read_digits-zeros (suc k) text = read_digits-zeros k text

read_digits-padded_hex :
    (width n : ℕ) → n < 2 ^ 64 → read_digits 16 0 (padded_hex width n) ≡ (n, [])
unfolding read_digits
read_digits-padded_hex width n h =
    read_digits-zeros (width - length (hex n)) (hex n)
    ∙ ap (λ text. read_digits 16 0 text) (sym (append-nil (hex n)))
    ∙ read_digits-print_digits 15 n [] h

-- A text of hexadecimal digits, one at least.
pub data Digits : List ℕ → Type 0 where
  one_digit : (d : ℕ) → d < 16 → Digits (digit d ∷ [])
  and_digit : {text : List ℕ} (d : ℕ) → d < 16 → Digits text → Digits (digit d ∷ text)

Digits-++ : {text rest : List ℕ} → Digits text → Digits rest → Digits (text ++ rest)
Digits-++ (one_digit d h) r = and_digit d h r
Digits-++ (and_digit d h t) r = and_digit d h (Digits-++ t r)

print_digits-Digits : (fuel n : ℕ) → Digits (print_digits 16 (suc fuel) n)
unfolding print_digits
print_digits-Digits zero n = elim (one_digit_or_more n) [
  | inl (e, l) ↦ rw e (one_digit n l)
  | inr (e, l) ↦ rw e (one_digit (n % 16) (omega arith))
]
print_digits-Digits (suc fuel) n = elim (one_digit_or_more n) [
  | inl (e, l) ↦ rw e (one_digit n l)
  | inr (e, l) ↦
      rw e (Digits-++ (print_digits-Digits fuel (n / 16)) (one_digit (n % 16) (omega arith)))
]

zeros-Digits : {text : List ℕ} (k : ℕ) → Digits text → Digits (zeros k ++ text)
zeros-Digits zero t = t
zeros-Digits (suc k) t = and_digit 0 (omega arith) (zeros-Digits k t)

padded_hex-Digits : (width n : ℕ) → Digits (padded_hex width n)
padded_hex-Digits width n = zeros-Digits (width - length (hex n)) (print_digits-Digits 15 n)

Digits-Word : {text : List ℕ} → Digits text → Word text
Digits-Word (one_digit d h) = last (digit_not_space d)
Digits-Word (and_digit d h t) = more (digit_not_space d) (Digits-Word t)

-- The address with `0x` in front, as `0x%0<width>llx` prints it.
abbrev pub printed : ℕ → ℕ → List ℕ
printed width n = codes "0x" ++ padded_hex width n

pub printed-Word : (width n : ℕ) → Word (printed width n)
printed-Word width n = more refl (more refl (Digits-Word (padded_hex-Digits width n)))

read_unsigned-Digits :
    {text : List ℕ} (whole : List ℕ)
    → Digits text
    → read_unsigned whole (codes "0x" ++ text) ≡ read_digits 16 0 text
unfolding read_unsigned
read_unsigned-Digits whole (one_digit d h) = rw (digit_value-digit d h) (ground (arith, h))
read_unsigned-Digits whole (and_digit d h t) = rw (digit_value-digit d h) (ground (arith, h))

in_range : (n : ℕ) → n < 2 ^ 63 → positive n ≡ n
in_range n h = ground (arith, h)

-- `strtoll` reads a number below 2 ^ 63 back from its hexadecimal digits after `0x`, with any zeros
-- in front of them, and leaves nothing.
pub strtoll-printed : (width n : ℕ) → n < 2 ^ 63 → strtoll (printed width n) ≡ (n, [])
unfolding strtoll read_signed skip_blanks
strtoll-printed width n h =
    ap (λ (read : ℕ × List ℕ). (positive read.0, read.1))
      (read_unsigned-Digits (printed width n) (padded_hex-Digits width n)
        ∙ read_digits-padded_hex width n (omega arith))
    ∙ ap (λ m. (m, [])) (in_range n h)
