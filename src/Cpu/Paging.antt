-- ===== src/Cpu/Paging.antt =====
-- Address translation: src/cpu/paging.c and include/cpu/paging.h. The message of `log_error` is
-- left out.
pub mod Address
pub mod Walk
pub mod Leaf
pub mod Sv39
use risc_v_virtual_machine.Common.{ℕ, zero, suc, ◌+◌, ◌*◌, ◌^◌, Bool, true, false}
use risc_v_virtual_machine.Common.{◌&&◌, ◌||◌, not, bit_or, field, is_set, ◌==◌}
use risc_v_virtual_machine.Common.{if◌then◌else◌, ◌<<<◌, ◌>>>◌, add64, u64}
use risc_v_virtual_machine.Bus.{Bus}
use risc_v_virtual_machine.Cpu.{Cpu, Machine, u_mode, s_mode, m_mode}
use risc_v_virtual_machine.Cpu.Csr.Names
use risc_v_virtual_machine.Cpu.Trap.{exc_instr_page_fault, exc_load_page_fault}
use risc_v_virtual_machine.Cpu.Trap.{exc_store_page_fault}

pub data TranslationError : Type 0 where
  translation_success fetch_page_fault load_page_fault store_page_fault : TranslationError

-- The values of the enumeration.
abbrev pub error_code : TranslationError → ℕ
error_code translation_success = 0
error_code fetch_page_fault = exc_instr_page_fault
error_code load_page_fault = exc_load_page_fault
error_code store_page_fault = exc_store_page_fault

pub data AccessType : Type 0 where
  access_store access_fetch access_load : AccessType

pub record TranslationResult : Type 0 where
  pub physical_address : ℕ
  pub result : TranslationError

abbrev pub is_success : TranslationError → Bool
is_success translation_success = true
is_success fetch_page_fault = false
is_success load_page_fault = false
is_success store_page_fault = false

abbrev pub is_store : AccessType → Bool
is_store access_store = true
is_store access_fetch = false
is_store access_load = false

abbrev pub is_fetch : AccessType → Bool
is_fetch access_store = false
is_fetch access_fetch = true
is_fetch access_load = false

abbrev pub is_load : AccessType → Bool
is_load access_store = false
is_load access_fetch = false
is_load access_load = true

abbrev pub access_type_to_error : AccessType → TranslationError
access_type_to_error access_store = store_page_fault
access_type_to_error access_load = load_page_fault
access_type_to_error access_fetch = fetch_page_fault

unfoldable pub check_upper_bits : ℕ → Bool
check_upper_bits virtual_address =
    let sign = is_set (field virtual_address 38 1) in
    let upper = virtual_address >>> 39 in
    if not sign && not (upper == 0) || sign && not (upper == 0x1FFFFFF) then false else true

unfoldable pub check_priviledge : Cpu → ℕ → Bool → AccessType → Bool
check_priviledge cpu priviledge u_bit access_type =
    let sum = is_set (field (cpu.csrs Names.csr_mstatus) 18 1) in
    if priviledge == u_mode && not u_bit
    then false
    else if priviledge == s_mode && u_bit
    then (if is_fetch access_type then false else if not sum then false else true)
    else true

-- The fields of a page-table entry.
abbrev pub pte_ppn0 : ℕ → ℕ
pte_ppn0 pte = field pte 10 9

abbrev pub pte_ppn1 : ℕ → ℕ
pte_ppn1 pte = field pte 19 9

abbrev pub pte_ppn2 : ℕ → ℕ
pte_ppn2 pte = field pte 28 26

abbrev pub pte_bit : ℕ → ℕ → Bool
pte_bit pte n = is_set (field pte n 1)

-- `vpn[i]`.
abbrev pub vpn : ℕ → ℕ → ℕ
vpn virtual_address i = field virtual_address (12 + 9 * i) 9

unfoldable pub get_physical_address : ℕ → ℕ → ℕ → ℕ
get_physical_address pte virtual_address level =
    let offset = field virtual_address 0 12 in
    let pa_ppn2 = pte_ppn2 pte in
    let pa_ppn1 = if level == 2 then vpn virtual_address 1 else pte_ppn1 pte in
    let pa_ppn0 =
      if level == 2
      then vpn virtual_address 0
      else if level == 1
      then vpn virtual_address 0
      else pte_ppn0 pte in
    bit_or (bit_or (bit_or (pa_ppn2 <<< 30) (pa_ppn1 <<< 21)) (pa_ppn0 <<< 12)) offset

-- The entry is reserved or not valid.
abbrev pub is_malformed : ℕ → Bool
is_malformed pte =
    not (pte >>> 54 == 0) || pte_bit pte 2 && not (pte_bit pte 1) || not (pte_bit pte 0)

abbrev pub is_leaf : ℕ → Bool
is_leaf pte = pte_bit pte 1 || pte_bit pte 3

abbrev pub is_misaligned : ℕ → ℕ → Bool
is_misaligned level pte =
    level == 2 && (not (pte_ppn1 pte == 0) || not (pte_ppn0 pte == 0))
    || level == 1 && not (pte_ppn0 pte == 0)

-- The access bits that the kind of access needs are set.
unfoldable pub check_access : Cpu → ℕ → AccessType → Bool
check_access cpu pte access_type =
    let mxr = is_set (field (cpu.csrs Names.csr_mstatus) 19 1) in
    if is_store access_type && not (pte_bit pte 2)
    then false
    else if is_load access_type && not (pte_bit pte 1) && not (mxr && pte_bit pte 3)
    then false
    else if is_fetch access_type && not (pte_bit pte 3)
    then false
    else true

-- The entry with the accessed bit and, for a store, the dirty bit.
unfoldable pub updated_pte : ℕ → AccessType → ℕ
updated_pte pte access_type =
    let accessed = if not (pte_bit pte 6) then bit_or pte (2 ^ 6) else pte in
    if is_store access_type && not (pte_bit pte 7) then bit_or accessed (2 ^ 7) else accessed

abbrev pub page_fault : AccessType → TranslationResult
page_fault access_type = record { physical_address = 0; result = access_type_to_error access_type }

module _ {S : Type 0} ⦃bus : Bus S⦄ where
  -- The body of the loop from the checks of a leaf entry on.
  unfoldable pub sv39_leaf :
      ℕ → AccessType → ℕ → ℕ → ℕ → ℕ → Machine S → TranslationResult × Machine S
  unfolding check_priviledge check_access updated_pte
  sv39_leaf virtual_address access_type effective_priv level pte_addr pte m =
      let fault : TranslationResult × Machine S = (page_fault access_type, m) in
      let updated = updated_pte pte access_type in
      let stored =
        if not (updated == pte) then record m { ctx = bus.write64 m.ctx pte_addr updated } else m in
      let physical = get_physical_address pte virtual_address level in
      if is_misaligned level pte
      then fault
      else if not (check_priviledge m.cpu effective_priv (pte_bit pte 4) access_type)
      then fault
      else if not (check_access m.cpu pte access_type)
      then fault
      else (record { physical_address = physical; result = translation_success }, stored)

  -- The loop at `level`, with the physical address of the table that it reads.
  unfoldable pub sv39_walk : ℕ → AccessType → ℕ → ℕ → ℕ → Machine S → TranslationResult × Machine S
  sv39_walk virtual_address access_type effective_priv zero table m =
      let pte_addr = add64 table (vpn virtual_address 0 * 8) in
      let (pte, ctx) = bus.read64 m.ctx pte_addr in
      let m = record m { ctx = ctx } in
      if is_malformed pte
      then (page_fault access_type, m)
      else if not (is_leaf pte)
      then (page_fault access_type, m)
      else sv39_leaf virtual_address access_type effective_priv 0 pte_addr pte m
  sv39_walk virtual_address access_type effective_priv (suc i) table m =
      let pte_addr = add64 table (vpn virtual_address (suc i) * 8) in
      let (pte, ctx) = bus.read64 m.ctx pte_addr in
      let m = record m { ctx = ctx } in
      let pte_ppn_full =
        bit_or (bit_or (pte_ppn2 pte <<< 18) (pte_ppn1 pte <<< 9)) (pte_ppn0 pte) in
      let next =
        sv39_walk virtual_address access_type effective_priv i (u64 (pte_ppn_full <<< 12)) m in
      if is_malformed pte
      then (page_fault access_type, m)
      else if not (is_leaf pte)
      then next
      else sv39_leaf virtual_address access_type effective_priv (suc i) pte_addr pte m

  unfoldable pub sv39 : ℕ → AccessType → ℕ → Machine S → TranslationResult × Machine S
  unfolding sv39_walk
  sv39 virtual_address access_type effective_priv m =
      let ppn = field (m.cpu.csrs Names.csr_satp) 0 44 in
      let table = u64 (ppn <<< 12) in
      if not (check_upper_bits virtual_address)
      then (page_fault access_type, m)
      else sv39_walk virtual_address access_type effective_priv 2 table m

  unfoldable pub translate_address : ℕ → AccessType → Machine S → TranslationResult × Machine S
  translate_address virtual_address access_type m =
      let mstatus = m.cpu.csrs Names.csr_mstatus in
      let mode = field (m.cpu.csrs Names.csr_satp) 60 4 in
      let mprv = is_set (field mstatus 17 1) in
      let mpp = field mstatus 11 2 in
      let effective_priv =
        if m.cpu.priviledge == m_mode && not (is_fetch access_type) && mprv
        then mpp
        else m.cpu.priviledge in
      if mode == 0 || effective_priv == m_mode
      then (record { physical_address = virtual_address; result = translation_success }, m)
      else if mode == 8
      then sv39 virtual_address access_type effective_priv m
      else (page_fault access_type, m)
