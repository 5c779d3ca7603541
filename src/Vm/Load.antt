-- ===== src/Vm/Load.antt =====
-- The load of an image into RAM: `vm_load_bin` of src/vm/vm.c. The bytes of the file are an
-- argument, `none` if `fopen` fails; `fread` gives the next 256 of them, or those that are left.
pub mod Valid
pub mod Overruns
use native.Mathlib.Nat.{add-zero}
use risc_v_virtual_machine.Common.{
  ℕ, zero, suc, Bool, false, ◌^◌, ◌+◌, ◌-◌, sub64, ◌≤◌, ◌<◌, ◌≡◌, refl, arith, List, [], ◌∷◌,
  Option, none, some, if◌then◌else◌, ◌&&◌, leb, ltb, length, update, inl, inr, ◌⊎◌, true,
}
use risc_v_virtual_machine.Memory.{Memory, mem_base, mem_size}
use risc_v_virtual_machine.Vm.{Vm}

abbrev pub take : ℕ → List ℕ → List ℕ
take zero xs = []
take (suc n) [] = []
take (suc n) (x ∷ xs) = x ∷ take n xs

abbrev pub drop : ℕ → List ℕ → List ℕ
drop zero xs = xs
drop (suc n) [] = []
drop (suc n) (x ∷ xs) = drop n xs

-- `memcpy` to the cells from an index on; `none` where C writes beyond the mapping, which is
-- undefined.
unfoldable pub memcpy : Memory → ℕ → List ℕ → Option Memory
memcpy m dst [] = some m
memcpy m dst (byte ∷ bytes) =
    let rest = memcpy (record { mem = update m.mem dst byte }) (suc dst) bytes in
    if ltb dst mem_size then rest else none

-- The loop, on fuel.
unfoldable pub load_chunks : ℕ → Memory → ℕ → List ℕ → Option Memory
load_chunks zero m dst file = some m
load_chunks (suc fuel) m dst file =
    let chunk = take 256 file in
    elim (memcpy m dst chunk) [
      | none ↦ none
      | some copied ↦
          let rest = load_chunks fuel copied (dst + length chunk) (drop 256 file) in
          if ltb 0 (length chunk) then rest else some copied
    ]

-- The status and the machine after the load, `none` where it writes beyond RAM. A file of n bytes
-- takes at most n rounds and the last, which reads nothing.
unfoldable pub vm_load_bin : Vm → Option (List ℕ) → ℕ → Option (ℕ × Vm)
vm_load_bin vm none addr = some (1, vm)
vm_load_bin vm (some file) addr =
    let platform = vm.ctx in
    elim (load_chunks (suc (length file)) platform.ram (sub64 addr mem_base) file) [
      | none ↦ none
      | some ram ↦ some (0, record vm { ctx = record platform { ram = ram } })
    ]

-- The cells with the bytes of a list from an index on.
unfoldable pub filled : Memory → ℕ → List ℕ → Memory
filled m dst [] = m
filled m dst (byte ∷ bytes) = filled (record { mem = update m.mem dst byte }) (suc dst) bytes

pub filled_split :
    (n : ℕ) (m : Memory) (dst : ℕ) (file : List ℕ)
    → filled (filled m dst (take n file)) (dst + length (take n file)) (drop n file)
      ≡ filled m dst file
unfolding filled
filled_split zero m dst file = rw (add-zero dst) refl
filled_split (suc n) m dst [] = refl
filled_split (suc n) m dst (byte ∷ bytes) =
    let next : dst + suc (length (take n bytes)) ≡ suc dst + length (take n bytes) = omega arith in
    rw next (filled_split n (record { mem = update m.mem dst byte }) (suc dst) bytes)

pub length-drop : (n : ℕ) (xs : List ℕ) → length (drop n xs) ≤ length xs
length-drop zero xs = omega arith
length-drop (suc n) [] = omega arith
length-drop (suc n) (x ∷ xs) = omega (arith, length-drop n xs)

pub length-take-drop : (n : ℕ) (xs : List ℕ) → length (take n xs) + length (drop n xs) ≡ length xs
length-take-drop zero xs = omega arith
length-take-drop (suc n) [] = omega arith
length-take-drop (suc n) (x ∷ xs) = omega (arith, length-take-drop n xs)

ltb_yes : (a b : ℕ) → a < b → ltb a b ≡ true
ltb_yes a b h = ground (arith, h)

-- Bytes that fit into RAM are copied.
pub memcpy-filled :
    (m : Memory) (dst : ℕ) (bytes : List ℕ)
    → dst + length bytes ≤ mem_size
    → memcpy m dst bytes ≡ some (filled m dst bytes)
unfolding memcpy filled
memcpy-filled m dst [] h = refl
memcpy-filled m dst (byte ∷ bytes) h =
    rw (ltb_yes dst mem_size (omega arith))
      (memcpy-filled (record { mem = update m.mem dst byte }) (suc dst) bytes (omega arith))

pub some_read : (k : ℕ) → ltb 0 (suc k) ≡ true
some_read k = ground arith

-- On any fuel above the number of its bytes the loop comes to the end of a file that fits into RAM
-- and has copied all of it.
pub load_chunks-filled :
    (fuel : ℕ) (m : Memory) (dst : ℕ) (file : List ℕ)
    → length file < fuel
    → dst + length file ≤ mem_size
    → load_chunks fuel m dst file ≡ some (filled m dst file)
unfolding load_chunks
load_chunks-filled zero m dst file h fits = absurd (omega arith)
load_chunks-filled (suc fuel) m dst [] h fits = unfold memcpy filled in refl
load_chunks-filled (suc fuel) m dst (byte ∷ bytes) h fits =
    let chunk = take 256 (byte ∷ bytes) in
    let parts = length-take-drop 256 (byte ∷ bytes) in
    rw
      (
        load_chunks,
        memcpy-filled m dst chunk (omega (arith, parts)),
        some_read (length (take 255 bytes)),
        load_chunks-filled fuel (filled m dst chunk) (dst + length chunk) (drop 256 (byte ∷ bytes))
            (omega (arith, length-drop 255 bytes)) (omega (arith, parts)),
        filled_split 256 m dst (byte ∷ bytes),
      )
      refl

-- The byte of a file at a position.
abbrev pub get_byte : List ℕ → ℕ → ℕ
get_byte [] i = 0
get_byte (x ∷ xs) zero = x
get_byte (x ∷ xs) (suc i) = get_byte xs i

position : (dst j : ℕ) → (j < dst) ⊎ (j ≡ dst) ⊎ (dst < j)
position dst j = ground arith

filled_lem :
    (m : Memory) (dst : ℕ) (file : List ℕ) (j : ℕ)
    → (filled m dst file).mem j
      ≡ (if leb dst j && ltb j (dst + length file) then get_byte file (j - dst) else m.mem j)
unfolding filled
filled_lem m dst [] j = ground arith
filled_lem m dst (byte ∷ bytes) j =
    rw (filled_lem (record { mem = update m.mem dst byte }) (suc dst) bytes j)
      (elim (position dst j) [
        | inl before ↦ ground (arith, before)
        | inr (inl at) ↦ let start : j - dst ≡ 0 = omega arith in rw start (ground (arith, at))
        | inr (inr after) ↦
            let further : j - dst ≡ suc (j - suc dst) = omega arith in
            rw further (ground (arith, after))
      ])

-- A file that opens and fits into RAM at the address is copied to the cells from the address on,
-- byte by byte, and no other cell changes, nor do the processor, the timer and the serial port; the
-- result is 0.
pub vm_load_bin_lem :
    (vm : Vm) (file : List ℕ) (addr : ℕ)
    → mem_base ≤ addr
    → addr + length file ≤ mem_base + mem_size
    → let dst = addr - mem_base in
      (vm' : Vm) × (vm_load_bin vm (some file) addr ≡ some (0, vm'))
      × ((j : ℕ)
          → vm'.ctx.ram.mem j ≡ (
              if leb dst j && ltb j (dst + length file)
              then get_byte file (j - dst)
              else vm.ctx.ram.mem j))
      × (vm'.cpu ≡ vm.cpu)
      × (vm'.ctx.timer ≡ vm.ctx.timer)
      × (vm'.ctx.uart ≡ vm.ctx.uart)
unfolding vm_load_bin
vm_load_bin_lem vm file addr h fits =
    let dst = addr - mem_base in
    let platform = vm.ctx in
    let offset : sub64 addr mem_base ≡ dst = omega arith in
    (
      record vm { ctx = record platform { ram = filled platform.ram dst file } },
      rw
          (
            vm_load_bin,
            offset,
            load_chunks-filled (suc (length file)) platform.ram dst file (omega arith)
                (omega arith),
          )
          refl,
      λ j. filled_lem platform.ram dst file j,
      refl,
      refl,
      refl,
    )
