-- ===== src/Cpu/Paging/Sv39.antt =====
-- `sv39` of src/cpu/paging.c against the relation of the walks.
use risc_v_virtual_machine.Common.{
  ℕ, ◌-◌, ◌*◌, ◌^◌, ◌<◌, ◌≡◌, ◌⊎◌, refl, arith, ◌∙◌, inl, inr, Bool-cases,
}
use risc_v_virtual_machine.Common.{
  Bool, true, false, if◌then◌else◌, field, ltb, leb, ◌&&◌, ◌||◌, u64,
}
use risc_v_virtual_machine.Bus.{Platform, vm_bus}
use risc_v_virtual_machine.Cpu.{Cpu, Machine}
use risc_v_virtual_machine.Cpu.Csr.Names
use risc_v_virtual_machine.Cpu.Paging.{
  AccessType, access_store, access_load, access_fetch, TranslationResult, store_page_fault,
  load_page_fault, fetch_page_fault,
}
use risc_v_virtual_machine.Cpu.Paging.{page_fault, sv39_walk, sv39}
use risc_v_virtual_machine.Cpu.Paging.Address.{check_upper_bits_lem}
use risc_v_virtual_machine.Cpu.Paging.Walk.{
  pte_at, Walks, Walks-le, sv39_walk-Walks, sv39_walk-cases,
}
use risc_v_virtual_machine.Cpu.Paging.Leaf.{aligned, allows, translated, sv39_leaf_lem}

-- The table that `satp` names.
abbrev pub root : Cpu → ℕ
root cpu = field (cpu.csrs Names.csr_satp) 0 44 * 2 ^ 12

abbrev pub canonical : ℕ → Bool
canonical va = ltb va (2 ^ 38) || leb (2 ^ 64 - 2 ^ 38) va

-- A leaf entry that the walk reaches may be used.
abbrev pub usable : Machine Platform → AccessType → ℕ → ℕ → ℕ → Bool
usable m access priv l address =
    aligned l (pte_at m address) && allows m.cpu priv (pte_at m address) access

-- The page fault of an access.
abbrev pub fault : AccessType → TranslationResult
fault access_store = record { physical_address = 0; result = store_page_fault }
fault access_load = record { physical_address = 0; result = load_page_fault }
fault access_fetch = record { physical_address = 0; result = fetch_page_fault }

faults :
    (access : AccessType) (m : Machine Platform)
    → ◌≡◌ {A = TranslationResult × Machine Platform} (page_fault access, m) (fault access, m)
faults access_store m = refl
faults access_load m = refl
faults access_fetch m = refl

sv39_bad :
    (m : Machine Platform) (va : ℕ) (access : AccessType) (priv : ℕ)
    → va < 2 ^ 64
    → canonical va ≡ false
    → sv39 va access priv m ≡ (page_fault access, m)
unfolding sv39
sv39_bad m va access priv h bad = rw (check_upper_bits_lem va h, bad) refl

sv39_good :
    (m : Machine Platform) (va : ℕ) (access : AccessType) (priv : ℕ)
    → va < 2 ^ 64
    → canonical va ≡ true
    → sv39 va access priv m ≡ sv39_walk va access priv 2 (root m.cpu) m
unfolding sv39
sv39_good m va access priv h good =
    let root_fits : u64 (root m.cpu) ≡ root m.cpu = omega arith in
    rw (check_upper_bits_lem va h, good, root_fits) refl

sv39_reaches :
    {m : Machine Platform} {va l address : ℕ} (access : AccessType) (priv : ℕ)
    → va < 2 ^ 64
    → canonical va ≡ true
    → Walks m va 2 (root m.cpu) l address
    → sv39 va access priv m ≡ (
        if usable m access priv l address
        then translated va access l address m
        else (page_fault access, m))
sv39_reaches {m} {va} {l} {address} access priv h good walks =
    sv39_good m va access priv h good
    ∙ sv39_walk-Walks {m = m} {va = va} access priv walks
    ∙ sv39_leaf_lem m va l address priv access (Walks-le walks)

-- A walk that finds a leaf that may be used gives its address and updates it.
pub sv39-Walks :
    {m : Machine Platform} {va l address : ℕ} (access : AccessType) (priv : ℕ)
    → va < 2 ^ 64
    → canonical va ≡ true
    → Walks m va 2 (root m.cpu) l address
    → usable m access priv l address ≡ true
    → sv39 va access priv m ≡ translated va access l address m
sv39-Walks {m} {va} {l} {address} access priv h good walks ok =
    sv39_reaches {m = m} {va = va} access priv h good walks ∙ rw ok refl

-- `sv39` faults and leaves the machine as it is, or the address is canonical, the walk finds a
-- leaf that may be used, and `sv39` gives its address and updates it.
pub sv39-cases :
    (m : Machine Platform) (va : ℕ) (access : AccessType) (priv : ℕ)
    → va < 2 ^ 64
    → (sv39 va access priv m ≡ (fault access, m))
      ⊎ ((canonical va ≡ true)
          × (l : ℕ) × (address : ℕ) × Walks m va 2 (root m.cpu) l address
          × (usable m access priv l address ≡ true)
          × (sv39 va access priv m ≡ translated va access l address m))
sv39-cases m va access priv h = elim (Bool-cases (canonical va)) [
  | inr bad ↦ inl (sv39_bad m va access priv h bad ∙ faults access m)
  | inl good ↦ elim (sv39_walk-cases m va 2 (root m.cpu) access priv) [
    | inl fails ↦ inl (sv39_good m va access priv h good ∙ fails ∙ faults access m)
    | inr reaches ↦ elim (Bool-cases (usable m access priv reaches.0 reaches.1)) [
      | inl ok ↦ inr (
        good,
        reaches.0,
        reaches.1,
        reaches.2,
        ok,
        sv39-Walks {m = m} {va = va} access priv h good reaches.2 ok,
      )
      | inr bad ↦
          inl
            (sv39_reaches {m = m} {va = va} access priv h good reaches.2 ∙ rw bad (faults access m))
    ]
  ]
]
