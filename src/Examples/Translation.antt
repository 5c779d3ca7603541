-- ===== src/Examples/Translation.antt =====
-- Address translation at concrete inputs: page tables of two levels, with a page of two megabytes.
use risc_v_virtual_machine.Common.{
  ℕ, ◌+◌, ◌*◌, ◌%◌, ◌^◌, ◌≡◌, ◌⊎◌, refl, arith, true, false, if◌then◌else◌, ◌==◌, field,
}
use risc_v_virtual_machine.Memory.{Memory, valid_access, mem_read64}
use risc_v_virtual_machine.Devices.Uart.{uart_init}
use risc_v_virtual_machine.Bus.{Platform, vm_bus, vm_bus_read64}
use risc_v_virtual_machine.Cpu.{Machine, s_mode}
use risc_v_virtual_machine.Cpu.Csr.Names
use risc_v_virtual_machine.Cpu.Paging.{access_store, sv39, get_physical_address}
use risc_v_virtual_machine.Cpu.Paging.Address.{page_size, get_physical_address_lem}
use risc_v_virtual_machine.Cpu.Paging.Walk.{Walks, found, descend}
use risc_v_virtual_machine.Cpu.Paging.Leaf.{translated}
use risc_v_virtual_machine.Cpu.Paging.Sv39.{root, canonical, fault, usable, sv39-Walks, sv39-cases}

-- The entry at 0x80000000 points to the table at 0x80001000, whose first entry maps the two
-- megabytes at 0x80000000 for reads, writes and fetches.
abbrev tables : Memory
tables = record {
  mem = λ i.
      if i == 0
      then 0x01
      else if i == 1
      then 0x04
      else if i == 3
      then 0x20
      else if i == 0x1000
      then 0x0F
      else if i == 0x1003
      then 0x20
      else 0;
}

abbrev mapped : Machine Platform
mapped = record {
  cpu = record {
    regs = λ _. 0;
    csrs = λ a. if a == Names.csr_satp then 8 * 2 ^ 60 + 0x80000 else 0;
    pc = 0x1000;
    priviledge = 1;
    reservation = record { valid = false; phys_addr = 0; size = 0 };
    trap_taken = false;
    pc_written = false;
  };
  ctx = record {
    ram = tables;
    timer = record { msip = 0; mtime = 0; mtimecmp = 0 };
    uart = uart_init;
  };
}

walks : Walks mapped 0x1234 2 (root mapped.cpu) 1 0x80001000
unfolding vm_bus_read64 mem_read64 valid_access
walks = descend 1 (root mapped.cpu) 1 0x80001000 refl refl (found 1 0x80001000 refl refl)

leaf_usable : usable mapped access_store s_mode 1 0x80001000 ≡ true
unfolding vm_bus_read64 mem_read64 valid_access
leaf_usable = refl

sv39-Walks_example :
    sv39 0x1234 access_store s_mode mapped ≡ translated 0x1234 access_store 1 0x80001000 mapped
sv39-Walks_example =
    sv39-Walks {m = mapped} {va = 0x1234} {l = 1} {address = 0x80001000} access_store s_mode
      (omega arith) refl walks leaf_usable

sv39-cases_example :
    (sv39 0x1234 access_store s_mode mapped ≡ (fault access_store, mapped))
    ⊎ ((canonical 0x1234 ≡ true)
        × (l : ℕ) × (address : ℕ) × Walks mapped 0x1234 2 (root mapped.cpu) l address
        × (usable mapped access_store s_mode l address ≡ true)
        × (sv39 0x1234 access_store s_mode mapped
            ≡ translated 0x1234 access_store l address mapped))
sv39-cases_example = sv39-cases mapped 0x1234 access_store s_mode (omega arith)

get_physical_address_example :
    get_physical_address 0x2000000F 0x123456 1
    ≡ field 0x2000000F 10 44 * 2 ^ 12 + 0x123456 % page_size 1
get_physical_address_example = get_physical_address_lem 0x2000000F 0x123456 1 (omega arith) refl
