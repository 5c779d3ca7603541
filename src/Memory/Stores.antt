-- ===== src/Memory/Stores.antt =====
-- The writes of memory.c as `store_bytes` behind the test of the bounds.
use mathlib.Core.Path.{fun_ext}
use native.Mathlib.Nat.{mod-mod, mod-eq_of_lt}
use risc_v_virtual_machine.Common.{ℕ, suc, ◌+◌, ◌-◌, ◌*◌, ◌/◌, ◌%◌, ◌^◌, ◌<◌}
use risc_v_virtual_machine.Common.{◌≡◌, ap, arith, bit_and}
use risc_v_virtual_machine.Common.{if◌then◌else◌, update}
use risc_v_virtual_machine.Bits.{masked_field, bit_and_mask}
use risc_v_virtual_machine.Memory.{Memory, mem_base, valid_access}
use risc_v_virtual_machine.Memory.{mem_write8, mem_write16, mem_write32, mem_write64}
use risc_v_virtual_machine.Memory.Bytes.{
  store_bytes, Width, byte, half, word, double, size, mem_write,
}

-- `(value & (0xFF << s)) >> s` picks a byte.
masked_byte : (value k : ℕ) → bit_and value (0xFF * 2 ^ k) / 2 ^ k % 2 ^ 8 ≡ value / 2 ^ k % 256
masked_byte value k = rw (masked_field value k 8) (mod-mod (value / 2 ^ k) 256)

-- One more byte.
store_bytes-suc :
    (m : Memory) (i n value j : ℕ)
    → update (store_bytes m i n value).mem (i + n) (value / 256 ^ n % 256) j
      ≡ (store_bytes m i (suc n) value).mem j
unfolding store_bytes
store_bytes-suc m i n value j =
    ground (arith, λ (e : j - i ≡ n). ap (λ (k : ℕ). value / 256 ^ k % 256) e)

stored :
    (m : Memory) (i n value : ℕ)
    → update (store_bytes m i n value).mem (i + n) (value / 256 ^ n % 256)
      ≡ (store_bytes m i (suc n) value).mem
stored m i n value = fun_ext (store_bytes-suc m i n value)

stored_first :
    (m : Memory) (i value : ℕ) → update m.mem i (value % 256) ≡ (store_bytes m i 1 value).mem
stored_first m i value = fun_ext λ j.
    unfold store_bytes in ground (arith, λ (e : j - i ≡ 0). ap (λ (k : ℕ). value / 256 ^ k % 256) e)

mem_write8-eq-store_bytes :
    (m : Memory) (address value : ℕ)
    → value < 256
    → mem_write8 m address value
      ≡ (if valid_access address 1 then store_bytes m (address - mem_base) 1 value else m)
unfolding mem_write8
mem_write8-eq-store_bytes m address value h =
    rw (← stored_first m (address - mem_base) value, mod-eq_of_lt h)

low_byte : (value : ℕ) → bit_and value 0xFF % 2 ^ 8 ≡ value % 256
low_byte value = rw (bit_and_mask 8 value) (mod-mod value 256)

module _ (m : Memory) (address value : ℕ) where
  abbrev first : ℕ
  first = address - mem_base

  pub mem_write16-eq-store_bytes :
      mem_write16 m address value
      ≡ (if valid_access address 2 then store_bytes m first 2 value else m)
  unfolding mem_write16
  mem_write16-eq-store_bytes =
      rw (low_byte value, stored_first m first value, stored m first 1 value)

  pub mem_write32-eq-store_bytes :
      mem_write32 m address value
      ≡ (if valid_access address 4 then store_bytes m first 4 value else m)
  unfolding mem_write32
  mem_write32-eq-store_bytes = rw (
    low_byte value,
    masked_byte value 8,
    masked_byte value 16,
    stored_first m first value,
    stored m first 1 value,
    stored m first 2 value,
    stored m first 3 value,
  )

  pub mem_write64-eq-store_bytes :
      mem_write64 m address value
      ≡ (if valid_access address 8 then store_bytes m first 8 value else m)
  unfolding mem_write64
  mem_write64-eq-store_bytes = rw (
    low_byte value,
    masked_byte value 8,
    masked_byte value 16,
    masked_byte value 24,
    masked_byte value 32,
    masked_byte value 40,
    masked_byte value 48,
    stored_first m first value,
    stored m first 1 value,
    stored m first 2 value,
    stored m first 3 value,
    stored m first 4 value,
    stored m first 5 value,
    stored m first 6 value,
    stored m first 7 value,
  )

-- A write stores the low bytes of its value if all cells lie in RAM, else it changes nothing.
pub mem_write-eq-store_bytes :
    (w : Width) (m : Memory) (address value : ℕ)
    → value < 256 ^ size w
    → mem_write w m address value ≡ (
        if valid_access address (size w)
        then store_bytes m (address - mem_base) (size w) value
        else m)
mem_write-eq-store_bytes byte m a v h = mem_write8-eq-store_bytes m a v h
mem_write-eq-store_bytes half m a v h = mem_write16-eq-store_bytes m a v
mem_write-eq-store_bytes word m a v h = mem_write32-eq-store_bytes m a v
mem_write-eq-store_bytes double m a v h = mem_write64-eq-store_bytes m a v
