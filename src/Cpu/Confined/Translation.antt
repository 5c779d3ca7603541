-- ===== src/Cpu/Confined/Translation.antt =====
-- A translation may set bits of a page-table entry, and leaves the processor as it is.
use risc_v_virtual_machine.Common.{
  ℕ, zero, suc, ◌*◌, ◌≡◌, refl, Bool, true, false, not, ◌==◌, if◌then◌else◌, add64, field,
}
use risc_v_virtual_machine.Bus.{Bus}
use risc_v_virtual_machine.Cpu.{Cpu, Machine}
use risc_v_virtual_machine.Cpu.Csr.Names
use risc_v_virtual_machine.Cpu.Paging.{
  AccessType, sv39_leaf, sv39_walk, sv39, translate_address, is_misaligned, check_priviledge,
  check_access, pte_bit, updated_pte, is_malformed, is_leaf, vpn, check_upper_bits,
}

module _ {S : Type 0} ⦃bus : Bus S⦄ where
  pub cpu-if :
      {A : Type 0} {cpu : Cpu} (test : Bool) (x y : A × Machine S)
      → x.1.cpu ≡ cpu
      → y.1.cpu ≡ cpu
      → (if test then x else y).1.cpu ≡ cpu
  cpu-if true x y h k = h
  cpu-if false x y h k = k

  cpu-sv39_leaf :
      (va : ℕ) (access : AccessType) (priv level pte_addr pte : ℕ) (m : Machine S)
      → (sv39_leaf va access priv level pte_addr pte m).1.cpu ≡ m.cpu
  unfolding sv39_leaf
  cpu-sv39_leaf va access priv level pte_addr pte m = cpu-if (is_misaligned level pte) _ _ refl (
      cpu-if (not (check_priviledge m.cpu priv (pte_bit pte 4) access)) _ _ refl (
        cpu-if (not (check_access m.cpu pte access)) _ _ refl
          (cpu_of_if (not (updated_pte pte access == pte)) _ _ refl refl)))
    where
      cpu_of_if :
          {cpu : Cpu} (test : Bool) (x y : Machine S)
          → x.cpu ≡ cpu
          → y.cpu ≡ cpu
          → (if test then x else y).cpu ≡ cpu
      cpu_of_if true x y h k = h
      cpu_of_if false x y h k = k

  cpu-sv39_walk :
      (va : ℕ) (access : AccessType) (priv level table : ℕ) (m : Machine S)
      → (sv39_walk va access priv level table m).1.cpu ≡ m.cpu
  unfolding sv39_walk
  cpu-sv39_walk va access priv zero table m =
      let pte = (bus.read64 m.ctx (add64 table (vpn va 0 * 8))).0 in
      cpu-if (is_malformed pte) _ _ refl
        (cpu-if (not (is_leaf pte)) _ _ refl (cpu-sv39_leaf va access priv 0 _ pte _))
  cpu-sv39_walk va access priv (suc i) table m =
      let pte = (bus.read64 m.ctx (add64 table (vpn va (suc i) * 8))).0 in
      cpu-if (is_malformed pte) _ _ refl (
        cpu-if (not (is_leaf pte)) _ _ (cpu-sv39_walk va access priv i _ _)
          (cpu-sv39_leaf va access priv (suc i) _ pte _))

  pub cpu-translate_address :
      (va : ℕ) (access : AccessType) (m : Machine S) → (translate_address va access m).1.cpu ≡ m.cpu
  unfolding translate_address sv39
  cpu-translate_address va access m = cpu-if _ _ _ refl (
      cpu-if (field (m.cpu.csrs Names.csr_satp) 60 4 == 8) _ _
        (cpu-if (not (check_upper_bits va)) _ _ refl (cpu-sv39_walk va access _ 2 _ m)) refl)
