-- ===== src/Cpu/Fits/Memory.antt =====
-- The translation of src/cpu/paging.c, over a bus that gives words of 64 bits.
use risc_v_virtual_machine.Common.{
  ◌&&◌, zero, suc, ◌*◌, ◌==◌, add64, field, sym, ℕ, arith, ◌<◌, ◌^◌, Bool, true, false, not,
  if◌then◌else◌,
}
use risc_v_virtual_machine.Bus.{Bus}
use risc_v_virtual_machine.Cpu.{Machine}
use risc_v_virtual_machine.Cpu.Paging.{
  AccessType, error_code, sv39_leaf, sv39_walk, sv39, translate_address,
}
use risc_v_virtual_machine.Cpu.Confined.Translation.{cpu-translate_address}
use mathlib.Core.Path.{subst}
use risc_v_virtual_machine.Bits.{bit_or-lt}
use risc_v_virtual_machine.Cpu.Csr.Names
use risc_v_virtual_machine.Cpu.Paging.{
  TranslationError, is_store, is_misaligned, check_priviledge, check_access, pte_bit, updated_pte,
  is_malformed, is_leaf, vpn, check_upper_bits,
}
use risc_v_virtual_machine.Cpu.Access.{LoadResult}
use risc_v_virtual_machine.Cpu.Fits.{Fits}
use risc_v_virtual_machine.Cpu.Fits.Values.{if-lt}

-- The contexts of a bus that an access keeps, and that give only words that fit.
pub record Sound {S : Type 0} ⦃bus : Bus S⦄ (I : S → Type 0) : Type 0 where
  pub read8_lt : (s : S) (addr : ℕ) → I s → (bus.read8 s addr).0 < 2 ^ 64
  pub read16_lt : (s : S) (addr : ℕ) → I s → (bus.read16 s addr).0 < 2 ^ 64
  pub read32_lt : (s : S) (addr : ℕ) → I s → (bus.read32 s addr).0 < 2 ^ 32
  pub read64_lt : (s : S) (addr : ℕ) → I s → (bus.read64 s addr).0 < 2 ^ 64
  pub read8_keeps : (s : S) (addr : ℕ) → I s → I (bus.read8 s addr).1
  pub read16_keeps : (s : S) (addr : ℕ) → I s → I (bus.read16 s addr).1
  pub read32_keeps : (s : S) (addr : ℕ) → I s → I (bus.read32 s addr).1
  pub read64_keeps : (s : S) (addr : ℕ) → I s → I (bus.read64 s addr).1
  pub write8_keeps : (s : S) (addr value : ℕ) → I s → value < 256 → I (bus.write8 s addr value)
  pub write16_keeps : (s : S) (addr value : ℕ) → I s → value < 2 ^ 16 → I (bus.write16 s addr value)
  pub write32_keeps : (s : S) (addr value : ℕ) → I s → value < 2 ^ 32 → I (bus.write32 s addr value)
  pub write64_keeps : (s : S) (addr value : ℕ) → I s → value < 2 ^ 64 → I (bus.write64 s addr value)

-- The processor's words fit, and the devices are as the bus wants them.
pub record Valid {S : Type 0} (I : S → Type 0) (m : Machine S) : Type 0 where
  pub fits : Fits m.cpu
  pub devices : I m.ctx

-- A value that fits, and a valid machine.
abbrev pub Loaded : {S : Type 0} → (S → Type 0) → LoadResult × Machine S → Type 0
Loaded I p = (p.0.value < 2 ^ 64) × Valid I p.1

pub error_code-lt : (r : TranslationError) → error_code r < 2 ^ 64
error_code-lt r = ground arith

updated_pte-lt : (pte : ℕ) (access : AccessType) → pte < 2 ^ 64 → updated_pte pte access < 2 ^ 64
unfolding updated_pte
updated_pte-lt pte access h =
    let accessed = if-lt (not (pte_bit pte 6)) _ pte (bit_or-lt 64 pte (2 ^ 6) h (omega arith)) h in
    if-lt (is_store access && not (pte_bit pte 7)) _ _
      (bit_or-lt 64 _ (2 ^ 7) accessed (omega arith)) accessed

module _ {S : Type 0} ⦃bus : Bus S⦄ {I : S → Type 0} (sound : Sound I) where
  ctx-if :
      {A : Type 0} (test : Bool) (x y : A × Machine S)
      → I x.1.ctx
      → I y.1.ctx
      → I (if test then x else y).1.ctx
  ctx-if true x y h k = h
  ctx-if false x y h k = k

  ctx-sv39_leaf :
      (va : ℕ) (access : AccessType) (priv level pte_addr pte : ℕ) (m : Machine S)
      → pte < 2 ^ 64
      → I m.ctx
      → I (sv39_leaf va access priv level pte_addr pte m).1.ctx
  unfolding sv39_leaf
  ctx-sv39_leaf va access priv level pte_addr pte m h v = ctx-if (is_misaligned level pte) _ _ v (
      ctx-if (not (check_priviledge m.cpu priv (pte_bit pte 4) access)) _ _ v (
        ctx-if (not (check_access m.cpu pte access)) _ _ v
          (stored (not (updated_pte pte access == pte)))))
    where
      stored :
          (test : Bool)
          → I
              (if test
                then record m { ctx = bus.write64 m.ctx pte_addr (updated_pte pte access) }
                else m).ctx
      stored true =
          sound.write64_keeps m.ctx pte_addr (updated_pte pte access) v
            (updated_pte-lt pte access h)
      stored false = v

  ctx-sv39_walk :
      (va : ℕ) (access : AccessType) (priv level table : ℕ) (m : Machine S)
      → I m.ctx
      → I (sv39_walk va access priv level table m).1.ctx
  unfolding sv39_walk
  ctx-sv39_walk va access priv zero table m v =
      let addr = add64 table (vpn va 0 * 8) in
      let pte = (bus.read64 m.ctx addr).0 in
      let kept = sound.read64_keeps m.ctx addr v in
      ctx-if (is_malformed pte) _ _ kept (
        ctx-if (not (is_leaf pte)) _ _ kept (
          ctx-sv39_leaf va access priv 0 addr pte (record m { ctx = (bus.read64 m.ctx addr).1 })
            (sound.read64_lt m.ctx addr v) kept))
  ctx-sv39_walk va access priv (suc i) table m v =
      let addr = add64 table (vpn va (suc i) * 8) in
      let pte = (bus.read64 m.ctx addr).0 in
      let kept = sound.read64_keeps m.ctx addr v in
      ctx-if (is_malformed pte) _ _ kept (
        ctx-if (not (is_leaf pte)) _ _
          (ctx-sv39_walk va access priv i _ (record m { ctx = (bus.read64 m.ctx addr).1 }) kept)
          (ctx-sv39_leaf va access priv (suc i) addr pte
            (record m { ctx = (bus.read64 m.ctx addr).1 }) (sound.read64_lt m.ctx addr v) kept))

  pub translate_address-Valid :
      (va : ℕ) (access : AccessType) (m : Machine S)
      → Valid I m
      → Valid I (translate_address va access m).1
  unfolding translate_address sv39
  translate_address-Valid va access m v = record {
    fits = subst (λ cpu. Fits cpu) (sym (cpu-translate_address va access m)) v.fits;
    devices = ctx-if _ _ _ v.devices (
        ctx-if (field (m.cpu.csrs Names.csr_satp) 60 4 == 8) _ _
          (ctx-if (not (check_upper_bits va)) _ _ v.devices
            (ctx-sv39_walk va access _ 2 _ m v.devices))
          v.devices);
  }
