-- ===== src/Vm/Load/Valid.antt =====
-- What the load of a file of bytes, by `vm_load_bin` of src/vm/vm.c, keeps of RAM.
use risc_v_virtual_machine.Common.{
  ℕ, arith, zero, refl, ltb, ◌≤◌, ◌<◌, ◌≡◌, suc, Bool, true, false, if◌then◌else◌, List, [], ◌∷◌,
  Option, none, some, length, update, ◌+◌,
}
use risc_v_virtual_machine.Memory.{Memory, mem_size}
use risc_v_virtual_machine.Memory.Bytes as Bytes
use risc_v_virtual_machine.Devices.Uart.Valid.{}
use risc_v_virtual_machine.Bus.{vm_bus}
use risc_v_virtual_machine.Vm.Load.{load_chunks, memcpy, take, drop}

abbrev pub AreBytes : List ℕ → Type 0
AreBytes [] = Unit
AreBytes (x ∷ xs) = (x < 256) × AreBytes xs

-- The contents of a file are bytes, if it opens.
abbrev pub IsFile : Option (List ℕ) → Type 0
IsFile none = Unit
IsFile (some bytes) = AreBytes bytes

-- Cells that are bytes, and 0 behind the end of RAM.
pub record IsRam (m : Memory) : Type 0 where
  pub ram_ok : Bytes.IsBytes m
  pub ram_end : (i : ℕ) → mem_size ≤ i → m.mem i ≡ 0

abbrev pub IsCopied : Option Memory → Type 0
IsCopied none = Unit
IsCopied (some m) = IsRam m

IsCopied-if :
    (test : Bool) (x y : Option Memory)
    → (test ≡ true → IsCopied x)
    → (test ≡ false → IsCopied y)
    → IsCopied (if test then x else y)
IsCopied-if true x y h k = h refl
IsCopied-if false x y h k = k refl

update-IsRam :
    (m : Memory) (i x : ℕ)
    → IsRam m
    → x < 256
    → i < mem_size
    → IsRam (record { mem = update m.mem i x })
update-IsRam m i x v h inside = record {
  ram_ok = record { byte_lt = λ j. ground (arith, h, v.ram_ok.byte_lt j) };
  ram_end = λ j beyond. ground (arith, inside, beyond, v.ram_end j beyond);
}

memcpy-IsCopied :
    (m : Memory) (dst : ℕ) (file : List ℕ) → AreBytes file → IsRam m → IsCopied (memcpy m dst file)
unfolding memcpy
memcpy-IsCopied m dst [] h v = v
memcpy-IsCopied m dst (byte ∷ bytes) h v =
    IsCopied-if (ltb dst mem_size) _ none
      (λ inside.
        memcpy-IsCopied (record { mem = update m.mem dst byte }) (suc dst) bytes h.1
          (update-IsRam m dst byte v h.0 (ground (arith, inside))))
      (λ outside. tt)

AreBytes-take : (n : ℕ) (xs : List ℕ) → AreBytes xs → AreBytes (take n xs)
AreBytes-take zero xs h = tt
AreBytes-take (suc n) [] h = tt
AreBytes-take (suc n) (x ∷ xs) h = (h.0, AreBytes-take n xs h.1)

AreBytes-drop : (n : ℕ) (xs : List ℕ) → AreBytes xs → AreBytes (drop n xs)
AreBytes-drop zero xs h = h
AreBytes-drop (suc n) [] h = tt
AreBytes-drop (suc n) (x ∷ xs) h = AreBytes-drop n xs h.1

pub load_chunks-IsCopied :
    (fuel : ℕ) (m : Memory) (dst : ℕ) (file : List ℕ)
    → AreBytes file
    → IsRam m
    → IsCopied (load_chunks fuel m dst file)
unfolding load_chunks
load_chunks-IsCopied zero m dst file h v = v
load_chunks-IsCopied (suc fuel) m dst file h v =
    let chunk = take 256 file in
    further (memcpy m dst chunk) (memcpy-IsCopied m dst chunk (AreBytes-take 256 file h) v) (λ m' c.
      load_chunks-IsCopied fuel m' (dst + length chunk) (drop 256 file) (AreBytes-drop 256 file h)
        c)
  where
    further :
        (copied : Option Memory)
        → IsCopied copied
        → ((m' : Memory)
            → IsRam m'
            → IsCopied (load_chunks fuel m' (dst + length (take 256 file)) (drop 256 file)))
        → IsCopied (elim copied as (λ r. Option Memory) [
          | none ↦ none
          | some m' ↦
              let rest = load_chunks fuel m' (dst + length (take 256 file)) (drop 256 file) in
              if ltb 0 (length (take 256 file)) then rest else some m'
        ])
    further none c k = tt
    further (some m') c k =
        IsCopied-if (ltb 0 (length (take 256 file))) _ (some m') (λ more. k m' c) (λ last. c)
