-- ===== src/Cpu/Paging/Address.antt =====
-- Addresses in the translation of src/cpu/paging.c: which virtual addresses are canonical, and
-- the physical address that a leaf entry gives.
use risc_v_virtual_machine.Common.{ℕ, ◌+◌, ◌-◌, ◌*◌, ◌%◌, ◌^◌, ◌≤◌, ◌<◌, ◌≡◌, refl, arith}
use risc_v_virtual_machine.Common.{false, field, ltb, leb, ◌||◌, bit_or, ◌<<<◌, zero, suc}
use risc_v_virtual_machine.Bits.{bit_or_add}
use risc_v_virtual_machine.Cpu.Paging.{check_upper_bits, get_physical_address, is_misaligned}

-- A 64-bit virtual address passes the check of its upper bits if and only if it lies in the lowest
-- or in the highest 2 ^ 38 addresses.
pub check_upper_bits_lem :
    (va : ℕ) → va < 2 ^ 64 → check_upper_bits va ≡ (ltb va (2 ^ 38) || leb (2 ^ 64 - 2 ^ 38) va)
unfolding check_upper_bits
check_upper_bits_lem va h = ground arith

joined :
    (a b c o : ℕ)
    → b < 2 ^ 9
    → c < 2 ^ 9
    → o < 2 ^ 12
    → bit_or (bit_or (bit_or (a <<< 30) (b <<< 21)) (c <<< 12)) o
      ≡ a * 2 ^ 30 + b * 2 ^ 21 + c * 2 ^ 12 + o
joined a b c o hb hc ho =
    rw
      (
        bit_or_add 30 a (b * 2 ^ 21) (a * 2 ^ 30) refl (omega arith),
        bit_or_add 21 (a * 2 ^ 9 + b) (c * 2 ^ 12) (a * 2 ^ 30 + b * 2 ^ 21) (omega arith)
            (omega arith),
        bit_or_add 12 (a * 2 ^ 18 + b * 2 ^ 9 + c) o (a * 2 ^ 30 + b * 2 ^ 21 + c * 2 ^ 12)
            (omega arith) ho,
      )
      refl

joined_fields :
    (a x y z lo mid : ℕ)
    → bit_or
        (bit_or (bit_or (a <<< 30) (field x mid 9 <<< 21)) (field y lo 9 <<< 12))
        (field z 0 12)
      ≡ a * 2 ^ 30 + field x mid 9 * 2 ^ 21 + field y lo 9 * 2 ^ 12 + field z 0 12
joined_fields a x y z lo mid =
    joined a (field x mid 9) (field y lo 9) (field z 0 12) (omega arith) (omega arith) (omega arith)

-- The page of a leaf at `level` has `2 ^ (12 + 9 * level)` bytes.
abbrev pub page_size : ℕ → ℕ
page_size level = 2 ^ (12 + 9 * level)

-- For a leaf that is not misaligned at its level, the physical address is the address of the
-- entry's page plus the offset of the virtual address in a page of the level's size.
pub get_physical_address_lem :
    (pte va level : ℕ)
    → level ≤ 2
    → is_misaligned level pte ≡ false
    → get_physical_address pte va level ≡ field pte 10 44 * 2 ^ 12 + va % page_size level
unfolding get_physical_address
get_physical_address_lem pte va zero h aligned = rw (joined_fields _ _ _ _ _ _) (ground arith)
get_physical_address_lem pte va (suc zero) h aligned = rw (joined_fields _ _ _ _ _ _) (ground arith)
get_physical_address_lem pte va (suc (suc zero)) h aligned =
    rw (joined_fields _ _ _ _ _ _) (ground arith)
get_physical_address_lem pte va (suc (suc (suc level))) h aligned = absurd (omega arith)
