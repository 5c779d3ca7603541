-- ===== src/Memory/RoundTrip.antt =====
-- What a read sees after a write.
use native.Mathlib.Nat.{pow-suc, one-le-pow, div-add-mod, div-div-eq-div-mul, mod-eq_of_lt}
use risc_v_virtual_machine.Common.{ℕ, zero, suc, ◌+◌, ◌-◌, ◌*◌, ◌/◌, ◌%◌, ◌^◌, ◌≤◌, ◌<◌}
use risc_v_virtual_machine.Common.{◌≡◌, refl, sym, true, arith}
use risc_v_virtual_machine.Common.{◌⊎◌, ◌↔◌, inl, inr, Bool-cases}
use risc_v_virtual_machine.Memory.{Memory, mem_base, mem_size, valid_access}
use risc_v_virtual_machine.Memory.Bytes.{IsBytes, load_bytes, store_bytes}
use risc_v_virtual_machine.Memory.Bytes.{Width, byte, half, word, double, size, mem_read, mem_write}
use risc_v_virtual_machine.Memory.Bytes.{mem_read-eq-load_bytes}
use risc_v_virtual_machine.Memory.Stores.{mem_write-eq-store_bytes}

pub store_bytes-IsBytes :
    {m : Memory} → IsBytes m → (i n value : ℕ) → IsBytes (store_bytes m i n value)
unfolding store_bytes
store_bytes-IsBytes v i n value = record { byte_lt = λ j. ground (arith, v.byte_lt j) }

mul_split : (p a b q : ℕ) → q ≡ 256 * a + b → p * q ≡ p * 256 * a + b * p
mul_split p a b q e = rw e (omega arith)

mod_next : (v p : ℕ) → 0 < p → v % (p * 256) ≡ v % p + v / p % 256 * p
mod_next v p h =
    let whole : v / (p * 256) ≡ v / p / 256 = sym (div-div-eq-div-mul v p 256) in
    omega (
      arith,
      div-add-mod v p,
      div-add-mod v (p * 256),
      mul_split p (v / (p * 256)) (v / p % 256) (v / p) (omega (arith, whole)),
    )

store_bytes_inside :
    (m : Memory) (i n value k : ℕ)
    → k < n
    → (store_bytes m i n value).mem (i + k) ≡ value / 256 ^ k % 256
unfolding store_bytes
store_bytes_inside m i n value k h =
    let place : i + k - i ≡ k = omega arith in rw place (ground arith)

store_bytes_outside :
    (m : Memory) (i n value j : ℕ)
    → (j < i) ⊎ (i + n ≤ j)
    → (store_bytes m i n value).mem j ≡ m.mem j
unfolding store_bytes
store_bytes_outside m i n value j h = ground arith

load_bytes-store_bytes_upto :
    (m : Memory) (i n value k : ℕ)
    → k ≤ n
    → load_bytes (store_bytes m i n value) i k ≡ value % 256 ^ k
unfolding load_bytes
load_bytes-store_bytes_upto m i n value zero h = omega arith
load_bytes-store_bytes_upto m i n value (suc k) h =
    rw
      (
        store_bytes_inside m i n value k h,
        load_bytes-store_bytes_upto m i n value k (omega arith),
        pow-suc 256 k,
      )
      (sym (mod_next value (256 ^ k) (one-le-pow k 256 (omega arith))))

load_bytes-store_bytes_apart :
    (m : Memory) (i n value j k : ℕ)
    → (j + k ≤ i) ⊎ (i + n ≤ j)
    → load_bytes (store_bytes m i n value) j k ≡ load_bytes m j k
unfolding load_bytes
load_bytes-store_bytes_apart m i n value j zero h = refl
load_bytes-store_bytes_apart m i n value j (suc k) h = rw (
  store_bytes_outside m i n value (j + k) (ground arith),
  load_bytes-store_bytes_apart m i n value j k (ground arith),
)

-- An access is valid exactly when all its bytes lie in RAM.
pub valid_access_iff :
    (address n : ℕ)
    → n ≤ mem_size
    → (valid_access address n ≡ true) ↔ ((mem_base ≤ address) × (address + n ≤ mem_base + mem_size))
unfolding valid_access
valid_access_iff address n h = ground arith

-- Every write, valid or not, keeps the cells bytes.
pub mem_write-IsBytes :
    (w : Width) {m : Memory} (address value : ℕ)
    → value < 256 ^ size w
    → IsBytes m
    → IsBytes (mem_write w m address value)
mem_write-IsBytes w {m} address value h v =
    rw (mem_write-eq-store_bytes w m address value h)
      (elim (Bool-cases (valid_access address (size w))) [
        | inl ok ↦ rw ok (store_bytes-IsBytes v (address - mem_base) (size w) value)
        | inr bad ↦ rw bad v
      ])

-- For every width, a value written to an address in RAM is read back from it.
pub mem_read-mem_write :
    (w : Width) {m : Memory} (address value : ℕ)
    → IsBytes m
    → valid_access address (size w) ≡ true
    → value < 256 ^ size w
    → mem_read w (mem_write w m address value) address ≡ value
mem_read-mem_write w {m} address value v ok h =
    rw (mem_write-eq-store_bytes w m address value h, ok)
      (rw
        (
          mem_read-eq-load_bytes (store_bytes-IsBytes v (address - mem_base) (size w) value) address
              w,
          ok,
          load_bytes-store_bytes_upto m (address - mem_base) (size w) value (size w) (omega arith),
        )
        (mod-eq_of_lt h))

size-le-mem_size : (w : Width) → size w ≤ mem_size
size-le-mem_size byte = omega arith
size-le-mem_size half = omega arith
size-le-mem_size word = omega arith
size-le-mem_size double = omega arith

index_apart :
    (w w' : Width) (address address' : ℕ)
    → valid_access address (size w) ≡ true
    → valid_access address' (size w') ≡ true
    → (address' + size w' ≤ address) ⊎ (address + size w ≤ address')
    → (address' - mem_base + size w' ≤ address - mem_base)
      ⊎ (address - mem_base + size w ≤ address' - mem_base)
index_apart w w' address address' ok ok' apart = ground (
  arith,
  (valid_access_iff address (size w) (size-le-mem_size w)).0 ok,
  (valid_access_iff address' (size w') (size-le-mem_size w')).0 ok',
)

-- For every two widths, a write changes no read of bytes that it does not overlap, valid or not.
pub mem_read-mem_write_apart :
    (w w' : Width) {m : Memory} (address address' value : ℕ)
    → IsBytes m
    → value < 256 ^ size w
    → (address' + size w' ≤ address) ⊎ (address + size w ≤ address')
    → mem_read w' (mem_write w m address value) address' ≡ mem_read w' m address'
mem_read-mem_write_apart w w' {m} address address' value v h apart =
    rw
      (
        mem_read-eq-load_bytes (mem_write-IsBytes w address value h v) address' w',
        mem_read-eq-load_bytes v address' w',
        mem_write-eq-store_bytes w m address value h,
      )
      (elim (Bool-cases (valid_access address (size w))) [
        | inl ok ↦ rw ok (elim (Bool-cases (valid_access address' (size w'))) [
          | inl ok' ↦ rw ok' (
              load_bytes-store_bytes_apart m (address - mem_base) (size w) value
                (address' - mem_base) (size w') (index_apart w w' address address' ok ok' apart))
          | inr bad ↦ rw bad refl
        ])
        | inr bad ↦ rw bad refl
      ])

-- No write, valid or not, changes a cell behind RAM.
pub mem_write_beyond :
    (w : Width) (m : Memory) (address value j : ℕ)
    → value < 256 ^ size w
    → mem_size ≤ j
    → (mem_write w m address value).mem j ≡ m.mem j
mem_write_beyond w m address value j h beyond =
    rw (mem_write-eq-store_bytes w m address value h)
      (elim (Bool-cases (valid_access address (size w))) [
        | inl ok ↦
            let fits = (valid_access_iff address (size w) (size-le-mem_size w)).0 ok in
            rw ok (
              store_bytes_outside m (address - mem_base) (size w) value j
                (inr (omega (arith, fits))))
        | inr bad ↦ rw bad refl
      ])
