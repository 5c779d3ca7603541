-- ===== src/Cpu/Paging/Walk.antt =====
-- The walk of `sv39` in src/cpu/paging.c against page tables as a relation, on the platform of
-- src/memory/bus.c.
use risc_v_virtual_machine.Common.{
  ℕ, ◌+◌, ◌*◌, ◌^◌, ◌≤◌, ◌≡◌, ◌⊎◌, refl, arith, zero, suc, inl, inr, Bool-cases,
}
use risc_v_virtual_machine.Common.{
  Bool, true, false, field, bit_or, ◌<<<◌, u64, ◌/◌, ◌%◌, ◌==◌, ◌&&◌, ◌||◌, not, ltb,
}
use risc_v_virtual_machine.Bits.{bit_or_add}
use risc_v_virtual_machine.Bus.{Platform, vm_bus, vm_bus_read64}
use risc_v_virtual_machine.Bus.Routing.{vm_bus_read64_pure}
use risc_v_virtual_machine.Cpu.{Machine}
use risc_v_virtual_machine.Cpu.Paging.{AccessType}
use risc_v_virtual_machine.Cpu.Paging.{
  is_malformed, is_leaf, page_fault, sv39_leaf, sv39_walk, pte_ppn0, pte_ppn1, pte_ppn2,
}

-- The entry at a physical address.
abbrev pub pte_at : Machine Platform → ℕ → ℕ
pte_at m address = (vm_bus_read64 m.ctx address).0

-- The digit of an entry at a place.
abbrev pub digit : ℕ → ℕ → Bool
digit pte place = pte / 2 ^ place % 2 == 1

-- An entry has V (0), no reserved digit, and R (1) if it has W (2). It is a leaf if it has R or X (3).
abbrev pub is_entry : ℕ → Bool
is_entry pte = ltb pte (2 ^ 54) && digit pte 0 && (digit pte 1 || not (digit pte 2))

abbrev pub ends : ℕ → Bool
ends pte = digit pte 1 || digit pte 3

-- The address of the entry for `va` in a table for `level`.
abbrev pub entry : ℕ → ℕ → ℕ → ℕ
entry va level table = (table + va / 2 ^ (12 + 9 * level) % 2 ^ 9 * 8) % 2 ^ 64

-- `Walks m va level table l address`: from the table of `level` at `table`, the entries for `va`
-- point on from table to table, and the first that is a leaf is at `address`, at level `l`.
pub data Walks (m : Machine Platform) (va : ℕ) : ℕ → ℕ → ℕ → ℕ → Type 0 where
  found :
      (level table : ℕ)
      → is_entry (pte_at m (entry va level table)) ≡ true
      → ends (pte_at m (entry va level table)) ≡ true
      → Walks m va level table level (entry va level table)
  descend :
      (level table l address : ℕ)
      → is_entry (pte_at m (entry va (suc level) table)) ≡ true
      → ends (pte_at m (entry va (suc level) table)) ≡ false
      → Walks m va level (field (pte_at m (entry va (suc level) table)) 10 44 * 2 ^ 12) l address
      → Walks m va (suc level) table l address

malformed_lem : (pte : ℕ) → is_malformed pte ≡ not (is_entry pte)
malformed_lem pte = ground arith

leaf_lem : (pte : ℕ) → is_leaf pte ≡ ends pte
leaf_lem pte = ground arith

pub next_table :
    (pte : ℕ)
    → u64 (bit_or (bit_or (pte_ppn2 pte <<< 18) (pte_ppn1 pte <<< 9)) (pte_ppn0 pte) <<< 12)
      ≡ field pte 10 44 * 2 ^ 12
next_table pte =
    rw
      (
        bit_or_add 18 (pte_ppn2 pte) (pte_ppn1 pte * 2 ^ 9) (pte_ppn2 pte * 2 ^ 18) refl
            (omega arith),
        bit_or_add 9 (pte_ppn2 pte * 2 ^ 9 + pte_ppn1 pte) (pte_ppn0 pte)
            (pte_ppn2 pte * 2 ^ 18 + pte_ppn1 pte * 2 ^ 9) (omega arith) (omega arith),
      )
      (omega arith)

pub sv39_walk-Walks :
    {m : Machine Platform} {va level table l address : ℕ} (access : AccessType) (priv : ℕ)
    → Walks m va level table l address
    → sv39_walk va access priv level table m
      ≡ sv39_leaf va access priv l address (pte_at m address) m
unfolding sv39_walk
sv39_walk-Walks {m} {va} access priv (found zero table good leaf) =
    rw
      (
        vm_bus_read64_pure m.ctx (entry va 0 table),
        malformed_lem (pte_at m (entry va 0 table)),
        good,
        leaf_lem (pte_at m (entry va 0 table)),
        leaf,
      )
      refl
sv39_walk-Walks {m} {va} access priv (found (suc level) table good leaf) =
    rw
      (
        vm_bus_read64_pure m.ctx (entry va (suc level) table),
        malformed_lem (pte_at m (entry va (suc level) table)),
        good,
        leaf_lem (pte_at m (entry va (suc level) table)),
        leaf,
      )
      refl
sv39_walk-Walks {m} {va} access priv (descend level table l address good pointer rest) =
    rw
      (
        vm_bus_read64_pure m.ctx (entry va (suc level) table),
        malformed_lem (pte_at m (entry va (suc level) table)),
        good,
        leaf_lem (pte_at m (entry va (suc level) table)),
        pointer,
        next_table (pte_at m (entry va (suc level) table)),
      )
      (sv39_walk-Walks {m = m} {va = va} access priv rest)

pub Walks-le :
    {m : Machine Platform} {va level table l address : ℕ}
    → Walks m va level table l address
    → l ≤ level
Walks-le (found level table good leaf) = omega arith
Walks-le (descend level table l address good pointer rest) = omega (arith, Walks-le rest)

abbrev pub Reaches : Machine Platform → ℕ → ℕ → ℕ → Type 0
Reaches m va level table = (l : ℕ) × (address : ℕ) × Walks m va level table l address

pub sv39_walk-cases :
    (m : Machine Platform) (va level table : ℕ) (access : AccessType) (priv : ℕ)
    → (sv39_walk va access priv level table m ≡ (page_fault access, m)) ⊎ Reaches m va level table
unfolding sv39_walk
sv39_walk-cases m va zero table access priv =
    elim (Bool-cases (is_entry (pte_at m (entry va 0 table)))) [
      | inr bad ↦ inl (
          rw
            (
              vm_bus_read64_pure m.ctx (entry va 0 table),
              malformed_lem (pte_at m (entry va 0 table)),
              bad,
            )
            refl)
      | inl good ↦ elim (Bool-cases (ends (pte_at m (entry va 0 table)))) [
        | inl leaf ↦ inr (zero, entry va 0 table, found zero table good leaf)
        | inr pointer ↦ inl (
            rw
              (
                vm_bus_read64_pure m.ctx (entry va 0 table),
                malformed_lem (pte_at m (entry va 0 table)),
                good,
                leaf_lem (pte_at m (entry va 0 table)),
                pointer,
              )
              refl)
      ]
    ]
sv39_walk-cases m va (suc level) table access priv =
    let pte = pte_at m (entry va (suc level) table) in
    elim (Bool-cases (is_entry pte)) [
      | inr bad ↦ inl (
          rw
            (
              vm_bus_read64_pure m.ctx (entry va (suc level) table),
              malformed_lem (pte_at m (entry va (suc level) table)),
              bad,
            )
            refl)
      | inl good ↦ elim (Bool-cases (ends pte)) [
        | inl leaf ↦ inr (suc level, entry va (suc level) table, found (suc level) table good leaf)
        | inr pointer ↦ elim (sv39_walk-cases m va level (field pte 10 44 * 2 ^ 12) access priv) [
          | inl fault ↦ inl (
              rw
                (
                  vm_bus_read64_pure m.ctx (entry va (suc level) table),
                  malformed_lem (pte_at m (entry va (suc level) table)),
                  good,
                  leaf_lem (pte_at m (entry va (suc level) table)),
                  pointer,
                  next_table pte,
                )
                fault)
          | inr reaches ↦
              inr (
                reaches.0,
                reaches.1,
                descend level table reaches.0 reaches.1 good pointer reaches.2,
              )
        ]
      ]
    ]
