-- ===== src/Memory/Bytes.antt =====
-- RAM as an array of bytes, at every width at once: the number that `n` bytes spell and the
-- store of the `n` lowest bytes of a number. The accesses of memory.c are these two functions
-- behind the test of the bounds.
use native.Mathlib.Nat.{add-zero, pow-suc}
use risc_v_virtual_machine.Common.{ℕ, zero, suc, ◌+◌, ◌-◌, ◌*◌, ◌/◌, ◌%◌, ◌^◌, ◌<◌}
use risc_v_virtual_machine.Common.{◌≡◌, refl, arith, bit_or, ◌<<<◌}
use risc_v_virtual_machine.Common.{ltb, leb, if◌then◌else◌, ◌&&◌}
use risc_v_virtual_machine.Bits.{bit_or_add}
use risc_v_virtual_machine.Memory.{Memory, mem_base, valid_access, mem_read16, mem_read32}
use risc_v_virtual_machine.Memory.{
  mem_read64, mem_read8, mem_write8, mem_write16, mem_write32, mem_write64,
}

-- Each cell of RAM holds a byte.
pub record IsBytes (m : Memory) : Type 0 where
  pub byte_lt : (i : ℕ) → m.mem i < 256

-- The accesses of memory.c by width, in bytes.
pub data Width : Type 0 where
  byte half word double : Width

abbrev pub size : Width → ℕ
size byte = 1
size half = 2
size word = 4
size double = 8

abbrev pub mem_read : Width → Memory → ℕ → ℕ
mem_read byte = mem_read8
mem_read half = mem_read16
mem_read word = mem_read32
mem_read double = mem_read64

abbrev pub mem_write : Width → Memory → ℕ → ℕ → Memory
mem_write byte = mem_write8
mem_write half = mem_write16
mem_write word = mem_write32
mem_write double = mem_write64

-- The number that `n` bytes from index `i` spell, the lowest byte first.
unfoldable pub load_bytes : Memory → ℕ → ℕ → ℕ
load_bytes m i zero = 0
load_bytes m i (suc n) = load_bytes m i n + m.mem (i + n) * 256 ^ n

-- The `n` lowest bytes of `value`, stored from index `i` on.
unfoldable pub store_bytes : Memory → ℕ → ℕ → ℕ → Memory
store_bytes m i n value = record {
  mem = λ j. if leb i j && ltb j (i + n) then value / 256 ^ (j - i) % 256 else m.mem j;
}

pub load_bytes-lt : {m : Memory} → IsBytes m → (i n : ℕ) → load_bytes m i n < 256 ^ n
unfolding load_bytes
load_bytes-lt v i zero = omega arith
load_bytes-lt v i (suc n) = grind (arith, load_bytes-lt v i n, v.byte_lt (i + n), pow-suc 256 n)

or_two : (b0 b1 : ℕ) → b0 < 256 → bit_or (b1 <<< 8) b0 ≡ b1 * 2 ^ 8 + b0
or_two b0 b1 p = bit_or_add 8 b1 b0 (b1 * 2 ^ 8) refl p

or_four :
    (b0 b1 b2 b3 : ℕ)
    → b0 < 256
    → b1 < 256
    → b2 < 256
    → bit_or (bit_or (bit_or (b3 <<< 24) (b2 <<< 16)) (b1 <<< 8)) b0
      ≡ b3 * 2 ^ 24 + b2 * 2 ^ 16 + b1 * 2 ^ 8 + b0
or_four b0 b1 b2 b3 p0 p1 p2 =
    rw
      (
        bit_or_add 24 b3 (b2 * 2 ^ 16) (b3 * 2 ^ 24) refl (omega arith),
        bit_or_add 16 (b3 * 256 + b2) (b1 * 2 ^ 8) (b3 * 2 ^ 24 + b2 * 2 ^ 16) (omega arith)
            (omega arith),
        bit_or_add 8 (b3 * 65536 + b2 * 256 + b1) b0 (b3 * 2 ^ 24 + b2 * 2 ^ 16 + b1 * 2 ^ 8)
            (omega arith) (omega arith),
      )
      refl

or_eight :
    (x b0 b1 b2 b3 : ℕ)
    → b0 < 256
    → b1 < 256
    → b2 < 256
    → b3 < 256
    → bit_or (bit_or (bit_or (bit_or (x * 2 ^ 32) (b3 <<< 24)) (b2 <<< 16)) (b1 <<< 8)) b0
      ≡ x * 2 ^ 32 + b3 * 2 ^ 24 + b2 * 2 ^ 16 + b1 * 2 ^ 8 + b0
or_eight x b0 b1 b2 b3 p0 p1 p2 p3 =
    rw
      (
        bit_or_add 32 x (b3 * 2 ^ 24) (x * 2 ^ 32) refl (omega arith),
        bit_or_add 24 (x * 256 + b3) (b2 * 2 ^ 16) (x * 2 ^ 32 + b3 * 2 ^ 24) (omega arith)
            (omega arith),
        bit_or_add 16 (x * 65536 + b3 * 256 + b2) (b1 * 2 ^ 8)
            (x * 2 ^ 32 + b3 * 2 ^ 24 + b2 * 2 ^ 16) (omega arith) (omega arith),
        bit_or_add 8 (x * 16777216 + b3 * 65536 + b2 * 256 + b1) b0
            (x * 2 ^ 32 + b3 * 2 ^ 24 + b2 * 2 ^ 16 + b1 * 2 ^ 8) (omega arith) (omega arith),
      )
      refl

or_high :
    (b4 b5 b6 b7 : ℕ)
    → b4 < 256
    → b5 < 256
    → b6 < 256
    → bit_or (bit_or (bit_or (b7 <<< 56) (b6 <<< 48)) (b5 <<< 40)) (b4 <<< 32)
      ≡ (b7 * 2 ^ 24 + b6 * 2 ^ 16 + b5 * 2 ^ 8 + b4) * 2 ^ 32
or_high b4 b5 b6 b7 p4 p5 p6 =
    rw
      (
        bit_or_add 56 b7 (b6 * 2 ^ 48) (b7 * 2 ^ 56) refl (omega arith),
        bit_or_add 48 (b7 * 256 + b6) (b5 * 2 ^ 40) (b7 * 2 ^ 56 + b6 * 2 ^ 48) (omega arith)
            (omega arith),
        bit_or_add 40 (b7 * 65536 + b6 * 256 + b5) (b4 * 2 ^ 32)
            (b7 * 2 ^ 56 + b6 * 2 ^ 48 + b5 * 2 ^ 40) (omega arith) (omega arith),
      )
      (omega arith)

module _ {m : Memory} (v : IsBytes m) (address : ℕ) where
  abbrev idx : ℕ
  idx = address - mem_base

  pub mem_read16-eq-load_bytes :
      mem_read16 m address ≡ (if valid_access address 2 then load_bytes m idx 2 else 0)
  unfolding mem_read16 load_bytes
  mem_read16-eq-load_bytes =
      rw (or_two (m.mem idx) (m.mem (idx + 1)) (v.byte_lt idx), add-zero idx)
        (ground (arith, v.byte_lt idx, v.byte_lt (idx + 1)))

  pub mem_read32-eq-load_bytes :
      mem_read32 m address ≡ (if valid_access address 4 then load_bytes m idx 4 else 0)
  unfolding mem_read32 load_bytes
  mem_read32-eq-load_bytes =
      rw
        (
          or_four (m.mem idx) (m.mem (idx + 1)) (m.mem (idx + 2)) (m.mem (idx + 3)) (v.byte_lt idx)
              (v.byte_lt (idx + 1)) (v.byte_lt (idx + 2)),
          add-zero idx,
        )
        (ground
          (arith, v.byte_lt idx, v.byte_lt (idx + 1), v.byte_lt (idx + 2), v.byte_lt (idx + 3)))

  pub mem_read64-eq-load_bytes :
      mem_read64 m address ≡ (if valid_access address 8 then load_bytes m idx 8 else 0)
  unfolding mem_read64 load_bytes
  mem_read64-eq-load_bytes =
      rw
        (
          or_high (m.mem (idx + 4)) (m.mem (idx + 5)) (m.mem (idx + 6)) (m.mem (idx + 7))
              (v.byte_lt (idx + 4)) (v.byte_lt (idx + 5)) (v.byte_lt (idx + 6)),
          or_eight
              (m.mem (idx + 7) * 2 ^ 24
                + m.mem (idx + 6) * 2 ^ 16
                + m.mem (idx + 5) * 2 ^ 8
                + m.mem (idx + 4))
              (m.mem idx) (m.mem (idx + 1)) (m.mem (idx + 2)) (m.mem (idx + 3)) (v.byte_lt idx)
              (v.byte_lt (idx + 1)) (v.byte_lt (idx + 2)) (v.byte_lt (idx + 3)),
          add-zero idx,
        )
        (ground arith)

  mem_read8-eq-load_bytes :
      mem_read8 m address ≡ (if valid_access address 1 then load_bytes m idx 1 else 0)
  unfolding mem_read8 load_bytes
  mem_read8-eq-load_bytes = rw (add-zero idx) (ground arith)

  -- A read gives the bytes at the address if all lie in RAM, else 0.
  pub mem_read-eq-load_bytes :
      (w : Width)
      → mem_read w m address
        ≡ (if valid_access address (size w) then load_bytes m (address - mem_base) (size w) else 0)
  mem_read-eq-load_bytes byte = mem_read8-eq-load_bytes
  mem_read-eq-load_bytes half = mem_read16-eq-load_bytes
  mem_read-eq-load_bytes word = mem_read32-eq-load_bytes
  mem_read-eq-load_bytes double = mem_read64-eq-load_bytes
