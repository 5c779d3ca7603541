-- ===== src/Debugger/Numbers.antt =====
-- `strtoll` and `strtol` of the standard library with base 0, as the debugger calls them: both
-- read 64-bit numbers.
pub mod Hex
use risc_v_virtual_machine.Common.{
  ℕ, ◌+◌, ◌-◌, ◌*◌, ◌^◌, List, [], ◌∷◌, ◌==◌, if◌then◌else◌, ltb, leb, Bool, ◌||◌, ◌&&◌,
}

abbrev is_blank : ℕ → Bool
is_blank c = c == 32 || leb 9 c && leb c 13

-- The value of a digit, 36 for a character that is none.
abbrev pub digit_value : ℕ → ℕ
digit_value c =
    if leb 48 c && leb c 57
    then c - 48
    else if leb 97 c && leb c 122
    then c - 87
    else if leb 65 c && leb c 90
    then c - 55
    else 36

unfoldable pub skip_blanks : List ℕ → List ℕ
skip_blanks [] = []
skip_blanks (c ∷ text) = let rest = skip_blanks text in if is_blank c then rest else c ∷ text

-- The number that the digits at the front spell after `value`, and what follows them.
unfoldable pub read_digits : ℕ → ℕ → List ℕ → ℕ × List ℕ
read_digits base value [] = (value, [])
read_digits base value (c ∷ text) =
    let rest = read_digits base (value * base + digit_value c) text in
    if ltb (digit_value c) base then rest else (value, c ∷ text)

-- A number without its sign: `0x` and a hexadecimal digit, `0`, or another digit. With no digit the
-- value is 0 and `whole`, the text before the blanks and the sign, is left.
unfoldable pub read_unsigned : List ℕ → List ℕ → ℕ × List ℕ
read_unsigned whole [] = (0, whole)
read_unsigned whole (c ∷ []) = if ltb (digit_value c) 10 then (digit_value c, []) else (0, whole)
read_unsigned whole (c ∷ x ∷ []) =
    if c == 48
    then read_digits 8 0 (c ∷ x ∷ [])
    else if ltb (digit_value c) 10
    then read_digits 10 0 (c ∷ x ∷ [])
    else (0, whole)
read_unsigned whole (c ∷ x ∷ h ∷ text) =
    if c == 48
    then (if (x == b'x' || x == b'X') && ltb (digit_value h) 16
        then read_digits 16 0 (h ∷ text)
        else read_digits 8 0 (c ∷ x ∷ h ∷ text))
    else if ltb (digit_value c) 10
    then read_digits 10 0 (c ∷ x ∷ h ∷ text)
    else (0, whole)

-- The 64-bit word of the result, which stops at the least and the greatest `long long`.
abbrev pub positive : ℕ → ℕ
positive n = if ltb n (2 ^ 63) then n else 2 ^ 63 - 1

abbrev negative : ℕ → ℕ
negative n = if n == 0 then 0 else if leb n (2 ^ 63) then 2 ^ 64 - n else 2 ^ 63

unfoldable pub read_signed : List ℕ → List ℕ → ℕ × List ℕ
unfolding read_unsigned
read_signed whole [] = (0, whole)
read_signed whole (c ∷ text) =
    let minus = read_unsigned whole text in
    let plus = read_unsigned whole text in
    let bare = read_unsigned whole (c ∷ text) in
    if c == b'-'
    then (negative minus.0, minus.1)
    else if c == b'+'
    then (positive plus.0, plus.1)
    else (positive bare.0, bare.1)

-- The value, and the rest that `end` points to.
unfoldable pub strtoll : List ℕ → ℕ × List ℕ
unfolding read_signed
strtoll text = read_signed text (skip_blanks text)
