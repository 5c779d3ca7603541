-- ===== src/Cpu/Paging/Leaf.antt =====
-- The checks and the outcome at a leaf entry: `sv39_leaf`, `check_priviledge` and the access bits
-- of src/cpu/paging.c.
use risc_v_virtual_machine.Common.{
  ℕ, zero, suc, ◌+◌, ◌*◌, ◌/◌, ◌%◌, ◌^◌, ◌≤◌, ◌≡◌, refl, arith, inl, inr, Bool-cases,
}
use risc_v_virtual_machine.Common.{
  Bool, true, false, if◌then◌else◌, field, ◌==◌, ◌&&◌, not, ◌||◌, is_set,
}
use risc_v_virtual_machine.Common.{bit_or}
use risc_v_virtual_machine.Bits.{bit, bit_lem, bit_or_pow, bit-lt, bit-bit_or, bit-pow, field_one}
use risc_v_virtual_machine.Bus.{Platform, vm_bus, vm_bus_write64}
use risc_v_virtual_machine.Cpu.{Cpu, Machine, u_mode, s_mode}
use risc_v_virtual_machine.Cpu.Csr.Names
use risc_v_virtual_machine.Cpu.Paging.{
  AccessType, access_store, access_fetch, access_load, TranslationResult, translation_success,
}
use risc_v_virtual_machine.Cpu.Paging.{
  is_misaligned, pte_bit, check_priviledge, check_access, updated_pte, page_fault, sv39_leaf,
  is_store,
}
use risc_v_virtual_machine.Cpu.Paging.Address.{page_size, get_physical_address_lem}
use risc_v_virtual_machine.Cpu.Paging.Walk.{pte_at, digit}

abbrev fetches : AccessType → Bool
fetches access_fetch = true
fetches _ = false

abbrev stores : AccessType → Bool
stores access_store = true
stores _ = false

-- The page of a leaf starts at a multiple of the size of a page of its level.
abbrev pub aligned : ℕ → ℕ → Bool
aligned level pte = pte / 2 ^ 10 % 2 ^ (9 * level) == 0

misaligned_lem : (level pte : ℕ) → level ≤ 2 → is_misaligned level pte ≡ not (aligned level pte)
misaligned_lem zero pte h = ground arith
misaligned_lem (suc zero) pte h = ground arith
misaligned_lem (suc (suc zero)) pte h = ground arith
misaligned_lem (suc (suc (suc level))) pte h = absurd (omega arith)

-- The entry with A (6) set and, for a store, D (7).
abbrev pub marked : ℕ → AccessType → ℕ
marked pte access =
    let accessed = if digit pte 6 then pte else pte + 2 ^ 6 in
    if stores access && not (digit pte 7) then accessed + 2 ^ 7 else accessed

updated_pte-marked : (pte : ℕ) (access : AccessType) → updated_pte pte access ≡ marked pte access
unfolding updated_pte
updated_pte-marked pte access = ground (
  arith,
  bit_or_pow pte 6,
  bit_or_pow pte 7,
  bit_or_pow (bit_or pte (2 ^ 6)) 7,
  bit_lem pte 6,
  bit_lem pte 7,
  bit_lem (bit_or pte (2 ^ 6)) 7,
)

-- What a leaf entry allows: in user mode pages with the user bit, in supervisor mode those without
-- it, and those with it under SUM but for a fetch; a store by the write bit, a fetch by the
-- execute bit, and a load by the read bit, or under MXR by the execute bit.
abbrev allows_mode : Cpu → ℕ → ℕ → AccessType → Bool
allows_mode cpu priv pte access =
    if priv == u_mode
    then digit pte 4
    else if priv == s_mode
    then not (digit pte 4)
      || is_set (field (cpu.csrs Names.csr_mstatus) 18 1) && not (fetches access)
    else true

abbrev allows_access : Cpu → ℕ → AccessType → Bool
allows_access cpu pte access_store = digit pte 2
allows_access cpu pte access_fetch = digit pte 3
allows_access cpu pte access_load =
    digit pte 1 || is_set (field (cpu.csrs Names.csr_mstatus) 19 1) && digit pte 3

abbrev pub allows : Cpu → ℕ → ℕ → AccessType → Bool
allows cpu priv pte access = allows_mode cpu priv pte access && allows_access cpu pte access

check_priviledge_lem :
    (cpu : Cpu) (priv pte : ℕ) (access : AccessType)
    → check_priviledge cpu priv (pte_bit pte 4) access ≡ allows_mode cpu priv pte access
unfolding check_priviledge
check_priviledge_lem cpu priv pte access = ground arith

check_access_lem :
    (cpu : Cpu) (pte : ℕ) (access : AccessType)
    → check_access cpu pte access ≡ allows_access cpu pte access
unfolding check_access
check_access_lem cpu pte access_store = ground arith
check_access_lem cpu pte access_fetch = ground arith
check_access_lem cpu pte access_load = ground arith

-- The outcome at a leaf: the address, and the machine with the entry's accessed and dirty bits
-- written where they were not set.
abbrev pub translated :
    ℕ → AccessType → ℕ → ℕ → Machine Platform → TranslationResult × Machine Platform
translated va access l address m =
    let pte = pte_at m address in
    (
      record {
        physical_address = field pte 10 44 * 2 ^ 12 + va % page_size l;
        result = translation_success;
      },
      if marked pte access == pte
          then m
          else record m { ctx = vm_bus_write64 m.ctx address (marked pte access) },
    )

join_guards :
    {A B : Type 0} (a b c : Bool) (x : A × B) (r : A) (u v : B)
    → (if not a then x else if not b then x else (r, if not c then u else v))
      ≡ (if a && b then (r, if c then v else u) else x)
join_guards false b c x r u v = refl
join_guards true false c x r u v = refl
join_guards true true false x r u v = refl
join_guards true true true x r u v = refl

pub sv39_leaf_lem :
    (m : Machine Platform) (va l address priv : ℕ) (access : AccessType)
    → l ≤ 2
    → sv39_leaf va access priv l address (pte_at m address) m ≡ (
        if aligned l (pte_at m address) && allows m.cpu priv (pte_at m address) access
        then translated va access l address m
        else (page_fault access, m))
unfolding sv39_leaf
sv39_leaf_lem m va l address priv access h =
    let pte = pte_at m address in
    rw
      (
        check_priviledge_lem m.cpu priv pte access,
        check_access_lem m.cpu pte access,
        updated_pte-marked pte access,
      )
      (elim (Bool-cases (aligned l pte)) [
        | inr bad ↦ rw (misaligned_lem l pte h, bad) refl
        | inl good ↦
            let fits : is_misaligned l pte ≡ false = rw (misaligned_lem l pte h, good) refl in
            rw (get_physical_address_lem pte va l h fits, misaligned_lem l pte h, good)
              (join_guards (allows_mode m.cpu priv pte access) (allows_access m.cpu pte access)
                (marked pte access == pte) _ _ _ _)
      ])

-- The entry that is written back has the accessed digit set, for a store the dirty digit too, and
-- every other digit as it was.
pub updated_pte_lem :
    (pte i : ℕ) (access : AccessType)
    → bit (updated_pte pte access) i
      ≡ (if i == 6 || i == 7 && is_store access then 1 else bit pte i)
unfolding updated_pte
updated_pte_lem pte i access =
    rw (field_one pte 6, field_one pte 7)
      (ground (
        arith,
        bit-bit_or (bit_or pte (2 ^ 6)) (2 ^ 7) i,
        bit-bit_or pte (2 ^ 6) i,
        bit-bit_or pte (2 ^ 7) i,
        bit-pow 6 i,
        bit-pow 7 i,
        bit-lt pte i,
        bit-lt pte 6,
        bit-lt pte 7,
      ))
