-- ===== src/Debugger/Text.antt =====
-- What the debugger uses of the standard library on text: the words that `strtok` finds between
-- spaces, and the formats of `printf`. A text is the list of its bytes.
pub mod Words
use risc_v_virtual_machine.Common.{
  ℕ, zero, suc, ◌+◌, ◌-◌, ◌/◌, ◌%◌, List, [], ◌∷◌, ◌++◌, ◌==◌, if◌then◌else◌, ltb, length, Option,
  none, some, Bool, true, false,
}
use risc_v_virtual_machine.Common.Int.{ℤ, pos, negsuc}
use risc_v_virtual_machine.Common.Text.{codes}
use Prim.Native.String.{String}

abbrev pub space : ℕ
space = 32

abbrev push : List ℕ → List (List ℕ) → List (List ℕ)
push [] words = words
push (c ∷ word) words = (c ∷ word) ∷ words

-- The word at the front, empty if the text starts with a space, and the words after it.
unfoldable pub split : List ℕ → List ℕ × List (List ℕ)
split [] = ([], [])
split (c ∷ text) =
    let (word, words) = split text in
    if c == space then ([], push word words) else (c ∷ word, words)

-- The tokens that the calls of `strtok` give.
unfoldable pub tokens : List ℕ → List (List ℕ)
tokens text = let (word, words) = split text in push word words

-- The string in the buffer after those calls: `strtok` has put an end behind the first word, and
-- the spaces before it stay.
unfoldable pub first_string : List ℕ → List ℕ
first_string [] = []
first_string (c ∷ text) =
    let rest = first_string text in if c == space then c ∷ rest else c ∷ (split text).0

-- `strcmp(s, t) == 0`.
unfoldable pub same_text : List ℕ → List ℕ → Bool
same_text [] [] = true
same_text [] (c ∷ t) = false
same_text (c ∷ s) [] = false
same_text (c ∷ s) (d ∷ t) = let rest = same_text s t in if c == d then rest else false

abbrev pub digit : ℕ → ℕ
digit d = if ltb d 10 then 48 + d else 87 + d

-- The digits of a number to a base, on fuel for their count.
unfoldable pub print_digits : ℕ → ℕ → ℕ → List ℕ
print_digits base zero n = []
print_digits base (suc fuel) n =
    let front = print_digits base fuel (n / base) in
    if ltb n base then digit n ∷ [] else front ++ (digit (n % base) ∷ [])

-- A 64-bit number has at most 16 digits to the base 16 and 20 to the base 10.
abbrev pub hex : ℕ → List ℕ
hex n = print_digits 16 16 n

-- `%u`.
abbrev pub decimal : ℕ → List ℕ
decimal n = print_digits 10 20 n

-- `%lld` and `%d`.
abbrev pub signed_decimal : ℤ → List ℕ
signed_decimal (pos n) = decimal n
signed_decimal (negsuc n) = 45 ∷ decimal (suc n)

abbrev pub zeros : ℕ → List ℕ
zeros zero = []
zeros (suc n) = 48 ∷ zeros n

-- `%0<width>llx`.
abbrev pub padded_hex : ℕ → ℕ → List ℕ
padded_hex width n = zeros (width - length (hex n)) ++ hex n

-- `%s`; the C library prints a null pointer so.
abbrev pub string : Option String → List ℕ
string none = codes "(null)"
string (some s) = codes s

-- `x%u`.
abbrev pub register : ℕ → List ℕ
register n = codes "x" ++ decimal n
