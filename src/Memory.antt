-- ===== src/Memory.antt =====
-- Guest RAM: src/memory/memory.c and include/memory/memory.h. `memory_init` maps zeroed pages of
-- MEM_SIZE bytes, here the function `mem` from the index; only indices below MEM_SIZE are used.
-- The messages on stderr are left out.
pub mod Bytes
pub mod Stores
pub mod RoundTrip
use risc_v_virtual_machine.Common.{ℕ, ◌+◌, ◌-◌, ◌*◌, ◌^◌, Bool, false, bit_and, bit_or}
use risc_v_virtual_machine.Common.{ltb, leb, if◌then◌else◌, u8, u16, u32, ◌<<<◌, ◌>>>◌, update}

pub record Memory : Type 0 where
  pub mem : ℕ → ℕ

abbrev pub mem_base : ℕ
mem_base = 0x80000000

abbrev pub mem_size : ℕ
mem_size = 64 * 1024 * 1024

unfoldable pub memory_init : Memory
memory_init = record { mem = λ _. 0 }

unfoldable pub valid_access : ℕ → ℕ → Bool
valid_access address size =
    if ltb address mem_base then false else leb (address - mem_base) (mem_size - size)

abbrev pub address_to_index : ℕ → ℕ
address_to_index address = address - mem_base

unfoldable pub mem_write8 : Memory → ℕ → ℕ → Memory
mem_write8 m address value =
    let idx = address_to_index address in
    if valid_access address 1 then record { mem = update m.mem idx value } else m

unfoldable pub mem_write16 : Memory → ℕ → ℕ → Memory
mem_write16 m address value =
    let idx = address_to_index address in
    let m0 = update m.mem idx (u8 (bit_and value 0x00FF)) in
    let m1 = update m0 (idx + 1) (u8 (value >>> 8)) in
    if valid_access address 2 then record { mem = m1 } else m

unfoldable pub mem_write32 : Memory → ℕ → ℕ → Memory
mem_write32 m address value =
    let idx = address_to_index address in
    let m0 = update m.mem idx (u8 (bit_and value 0x000000FF)) in
    let m1 = update m0 (idx + 1) (u8 (bit_and value 0x0000FF00 >>> 8)) in
    let m2 = update m1 (idx + 2) (u8 (bit_and value 0x00FF0000 >>> 16)) in
    let m3 = update m2 (idx + 3) (u8 (value >>> 24)) in
    if valid_access address 4 then record { mem = m3 } else m

unfoldable pub mem_write64 : Memory → ℕ → ℕ → Memory
mem_write64 m address value =
    let idx = address_to_index address in
    let m0 = update m.mem idx (u8 (bit_and value 0x00000000000000FF)) in
    let m1 = update m0 (idx + 1) (u8 (bit_and value 0x000000000000FF00 >>> 8)) in
    let m2 = update m1 (idx + 2) (u8 (bit_and value 0x0000000000FF0000 >>> 16)) in
    let m3 = update m2 (idx + 3) (u8 (bit_and value 0x00000000FF000000 >>> 24)) in
    let m4 = update m3 (idx + 4) (u8 (bit_and value 0x000000FF00000000 >>> 32)) in
    let m5 = update m4 (idx + 5) (u8 (bit_and value 0x0000FF0000000000 >>> 40)) in
    let m6 = update m5 (idx + 6) (u8 (bit_and value 0x00FF000000000000 >>> 48)) in
    let m7 = update m6 (idx + 7) (u8 (value >>> 56)) in
    if valid_access address 8 then record { mem = m7 } else m

unfoldable pub mem_read8 : Memory → ℕ → ℕ
mem_read8 m address = if valid_access address 1 then m.mem (address_to_index address) else 0

unfoldable pub mem_read16 : Memory → ℕ → ℕ
mem_read16 m address =
    let idx = address_to_index address in
    if valid_access address 2 then u16 (bit_or (m.mem (idx + 1) <<< 8) (m.mem idx)) else 0

unfoldable pub mem_read32 : Memory → ℕ → ℕ
mem_read32 m address =
    let idx = address_to_index address in
    if valid_access address 4
    then u32 (
        bit_or
          (bit_or (bit_or (m.mem (idx + 3) <<< 24) (m.mem (idx + 2) <<< 16))
            (m.mem (idx + 1) <<< 8))
          (m.mem idx))
    else 0

-- The bytes are cast to `uint64_t` before the shifts, which lose nothing.
unfoldable pub mem_read64 : Memory → ℕ → ℕ
mem_read64 m address =
    let idx = address_to_index address in
    let b7 = m.mem (idx + 7) <<< 56 in
    let b76 = bit_or b7 (m.mem (idx + 6) <<< 48) in
    let b765 = bit_or b76 (m.mem (idx + 5) <<< 40) in
    let b7654 = bit_or b765 (m.mem (idx + 4) <<< 32) in
    let b76543 = bit_or b7654 (m.mem (idx + 3) <<< 24) in
    let b765432 = bit_or b76543 (m.mem (idx + 2) <<< 16) in
    let b7654321 = bit_or b765432 (m.mem (idx + 1) <<< 8) in
    if valid_access address 8 then bit_or b7654321 (m.mem idx) else 0
