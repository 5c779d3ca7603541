-- ===== src/Cpu/Fits/Accesses.antt =====
-- The loads, the stores and the fetch of src/cpu/cpu.c, over a bus that gives words of 64 bits.
use risc_v_virtual_machine.Common.{
  ℕ, arith, ◌<◌, ◌^◌, true, not, if◌then◌else◌, Bool-cases, inl, inr,
}
use risc_v_virtual_machine.Bus.{Bus}
use risc_v_virtual_machine.Cpu.{Machine, cpu_invalidate_reservation}
use risc_v_virtual_machine.Cpu.Paging.{
  TranslationResult, access_load, access_store, access_fetch, is_success, error_code,
  translate_address,
}
use risc_v_virtual_machine.Cpu.Paging.{}
use risc_v_virtual_machine.Cpu.Access.{
  failed, raise_fault, cpu_fetch, cpu_load8, cpu_load16, cpu_load32, cpu_load64, cpu_store8,
  cpu_store16, cpu_store32, cpu_store64,
}
use risc_v_virtual_machine.Cpu.Fits.{cpu_invalidate_reservation-Fits}
use risc_v_virtual_machine.Cpu.Fits.Traps.{raise_exception-Fits}
use risc_v_virtual_machine.Cpu.Fits.Memory.{
  Sound, Valid, Loaded, error_code-lt, translate_address-Valid,
}

module _ {S : Type 0} ⦃bus : Bus S⦄ {I : S → Type 0} (sound : Sound I) where
  load-Loaded :
      (tr : TranslationResult) (m : Machine S) (va value : ℕ) (ctx : S)
      → Valid I m
      → va < 2 ^ 64
      → value < 2 ^ 64
      → I ctx
      → Loaded I (
          if not (is_success tr.result)
          then (failed, raise_fault tr va m)
          else (record { success = true; value = value }, record m { ctx = ctx }))
  load-Loaded tr m va value ctx v h k c = elim (Bool-cases (is_success tr.result)) [
    | inl t ↦ rw t (k, record { fits = v.fits; devices = c })
    | inr f ↦ rw f (
      omega arith,
      record {
        fits =
            raise_exception-Fits m.cpu (error_code tr.result) va v.fits (error_code-lt tr.result) h;
        devices = v.devices;
      },
    )
  ]

  store-Loaded :
      (tr : TranslationResult) (m : Machine S) (va n : ℕ) (ctx : S)
      → Valid I m
      → va < 2 ^ 64
      → I ctx
      → Loaded I (
          if not (is_success tr.result) then (failed, raise_fault tr va m) else (
            record { success = true; value = 0 },
            record { cpu = cpu_invalidate_reservation m.cpu tr.physical_address n; ctx = ctx },
          ))
  store-Loaded tr m va n ctx v h c = elim (Bool-cases (is_success tr.result)) [
    | inl t ↦ rw t (
      omega arith,
      record {
        fits = cpu_invalidate_reservation-Fits m.cpu tr.physical_address n v.fits;
        devices = c;
      },
    )
    | inr f ↦ rw f (
      omega arith,
      record {
        fits =
            raise_exception-Fits m.cpu (error_code tr.result) va v.fits (error_code-lt tr.result) h;
        devices = v.devices;
      },
    )
  ]

  pub cpu_load8-Loaded :
      (m : Machine S) (va : ℕ) → Valid I m → va < 2 ^ 64 → Loaded I (cpu_load8 m va)
  unfolding cpu_load8
  cpu_load8-Loaded m va v h =
      let (tr, m') = translate_address va access_load m in
      let w = translate_address-Valid sound va access_load m v in
      load-Loaded tr m' va _ _ w h (sound.read8_lt m'.ctx tr.physical_address w.devices)
        (sound.read8_keeps m'.ctx tr.physical_address w.devices)

  pub cpu_store8-Loaded :
      (m : Machine S) (va value : ℕ)
      → Valid I m
      → va < 2 ^ 64
      → value < 256
      → Loaded I (cpu_store8 m va value)
  unfolding cpu_store8
  cpu_store8-Loaded m va value v h k =
      let (tr, m') = translate_address va access_store m in
      let w = translate_address-Valid sound va access_store m v in
      store-Loaded tr m' va 1 _ w h
        (sound.write8_keeps m'.ctx tr.physical_address value w.devices k)

  pub cpu_load16-Loaded :
      (m : Machine S) (va : ℕ) → Valid I m → va < 2 ^ 64 → Loaded I (cpu_load16 m va)
  unfolding cpu_load16
  cpu_load16-Loaded m va v h =
      let (tr, m') = translate_address va access_load m in
      let w = translate_address-Valid sound va access_load m v in
      load-Loaded tr m' va _ _ w h (sound.read16_lt m'.ctx tr.physical_address w.devices)
        (sound.read16_keeps m'.ctx tr.physical_address w.devices)

  pub cpu_store16-Loaded :
      (m : Machine S) (va value : ℕ)
      → Valid I m
      → va < 2 ^ 64
      → value < 2 ^ 16
      → Loaded I (cpu_store16 m va value)
  unfolding cpu_store16
  cpu_store16-Loaded m va value v h k =
      let (tr, m') = translate_address va access_store m in
      let w = translate_address-Valid sound va access_store m v in
      store-Loaded tr m' va 2 _ w h
        (sound.write16_keeps m'.ctx tr.physical_address value w.devices k)

  pub cpu_load32-Loaded :
      (m : Machine S) (va : ℕ) → Valid I m → va < 2 ^ 64 → Loaded I (cpu_load32 m va)
  unfolding cpu_load32
  cpu_load32-Loaded m va v h =
      let (tr, m') = translate_address va access_load m in
      let w = translate_address-Valid sound va access_load m v in
      load-Loaded tr m' va _ _ w h
        (omega (arith, sound.read32_lt m'.ctx tr.physical_address w.devices))
        (sound.read32_keeps m'.ctx tr.physical_address w.devices)

  pub cpu_store32-Loaded :
      (m : Machine S) (va value : ℕ)
      → Valid I m
      → va < 2 ^ 64
      → value < 2 ^ 32
      → Loaded I (cpu_store32 m va value)
  unfolding cpu_store32
  cpu_store32-Loaded m va value v h k =
      let (tr, m') = translate_address va access_store m in
      let w = translate_address-Valid sound va access_store m v in
      store-Loaded tr m' va 4 _ w h
        (sound.write32_keeps m'.ctx tr.physical_address value w.devices k)

  pub cpu_load64-Loaded :
      (m : Machine S) (va : ℕ) → Valid I m → va < 2 ^ 64 → Loaded I (cpu_load64 m va)
  unfolding cpu_load64
  cpu_load64-Loaded m va v h =
      let (tr, m') = translate_address va access_load m in
      let w = translate_address-Valid sound va access_load m v in
      load-Loaded tr m' va _ _ w h (sound.read64_lt m'.ctx tr.physical_address w.devices)
        (sound.read64_keeps m'.ctx tr.physical_address w.devices)

  pub cpu_store64-Loaded :
      (m : Machine S) (va value : ℕ)
      → Valid I m
      → va < 2 ^ 64
      → value < 2 ^ 64
      → Loaded I (cpu_store64 m va value)
  unfolding cpu_store64
  cpu_store64-Loaded m va value v h k =
      let (tr, m') = translate_address va access_store m in
      let w = translate_address-Valid sound va access_store m v in
      store-Loaded tr m' va 8 _ w h
        (sound.write64_keeps m'.ctx tr.physical_address value w.devices k)

  pub cpu_fetch-Loaded : (m : Machine S) → Valid I m → Loaded I (cpu_fetch m)
  unfolding cpu_fetch
  cpu_fetch-Loaded m v =
      let (tr, m') = translate_address m.cpu.pc access_fetch m in
      let w = translate_address-Valid sound m.cpu.pc access_fetch m v in
      load-Loaded tr m' m'.cpu.pc _ _ w w.fits.pc_lt
        (omega (arith, sound.read32_lt m'.ctx tr.physical_address w.devices))
        (sound.read32_keeps m'.ctx tr.physical_address w.devices)
