-- ===== src/Cpu/Access/Untranslated.antt =====
-- Loads and stores of src/cpu/cpu.c with translation off, on the platform of src/memory/bus.c.
use risc_v_virtual_machine.Common.{ℕ, ◌^◌, ◌<◌, ◌≡◌, refl, arith}
use risc_v_virtual_machine.Common.{true, field}
use risc_v_virtual_machine.Memory.{valid_access}
use risc_v_virtual_machine.Memory.Bytes.{IsBytes, Width, byte, half, word, double, size}
use risc_v_virtual_machine.Bus.{Platform, vm_bus}
use risc_v_virtual_machine.Bus.Routing.{vm_bus_read, vm_bus_write, vm_bus_read-vm_bus_write}
use risc_v_virtual_machine.Cpu.{Cpu, Machine, cpu_invalidate_reservation}
use risc_v_virtual_machine.Cpu.Csr.Names
use risc_v_virtual_machine.Cpu.Paging.{AccessType, translation_success, translate_address}
use risc_v_virtual_machine.Cpu.Access.{LoadResult, cpu_load8, cpu_load16, cpu_load32, cpu_load64}
use risc_v_virtual_machine.Cpu.Access.{cpu_store8, cpu_store16, cpu_store32, cpu_store64}

abbrev pub cpu_load : Width → Machine Platform → ℕ → LoadResult × Machine Platform
cpu_load byte = cpu_load8
cpu_load half = cpu_load16
cpu_load word = cpu_load32
cpu_load double = cpu_load64

abbrev pub cpu_store : Width → Machine Platform → ℕ → ℕ → LoadResult × Machine Platform
cpu_store byte = cpu_store8
cpu_store half = cpu_store16
cpu_store word = cpu_store32
cpu_store double = cpu_store64

abbrev pub satp_mode : Cpu → ℕ
satp_mode cpu = field (cpu.csrs Names.csr_satp) 60 4

pub bare :
    (va : ℕ) (access : AccessType) (m : Machine Platform)
    → satp_mode m.cpu ≡ 0
    → translate_address va access m
      ≡ (record { physical_address = va; result = translation_success }, m)
unfolding translate_address
bare va access m h = rw h refl

load_bare :
    (w : Width) (m : Machine Platform) (va : ℕ)
    → satp_mode m.cpu ≡ 0
    → cpu_load w m va ≡ (
      record { success = true; value = (vm_bus_read w m.ctx va).0 },
      record m { ctx = (vm_bus_read w m.ctx va).1 },
    )
unfolding cpu_load8 cpu_load16 cpu_load32 cpu_load64
load_bare byte m va h = rw (bare va _ m h) refl
load_bare half m va h = rw (bare va _ m h) refl
load_bare word m va h = rw (bare va _ m h) refl
load_bare double m va h = rw (bare va _ m h) refl

pub store_bare :
    (w : Width) (m : Machine Platform) (va value : ℕ)
    → satp_mode m.cpu ≡ 0
    → cpu_store w m va value ≡ (
      record { success = true; value = 0 },
      record {
        cpu = cpu_invalidate_reservation m.cpu va (size w);
        ctx = vm_bus_write w m.ctx va value;
      },
    )
unfolding cpu_store8 cpu_store16 cpu_store32 cpu_store64
store_bare byte m va value h = rw (bare va _ m h) refl
store_bare half m va value h = rw (bare va _ m h) refl
store_bare word m va value h = rw (bare va _ m h) refl
store_bare double m va value h = rw (bare va _ m h) refl

pub same_satp : (cpu : Cpu) (va n : ℕ) → (cpu_invalidate_reservation cpu va n).csrs ≡ cpu.csrs
unfolding cpu_invalidate_reservation
same_satp cpu va n = ground arith

-- With translation off, a store to RAM succeeds and a load of the same width from the same
-- address gives the value and changes nothing more.
pub cpu_load-cpu_store :
    (w : Width) (m : Machine Platform) (va value : ℕ)
    → satp_mode m.cpu ≡ 0
    → IsBytes m.ctx.ram
    → valid_access va (size w) ≡ true
    → value < 256 ^ size w
    → cpu_load w (cpu_store w m va value).1 va
      ≡ (record { success = true; value = value }, (cpu_store w m va value).1)
cpu_load-cpu_store w m va value off v ok h =
    rw
      (
        store_bare w m va value off,
        load_bare w
            (record {
              cpu = cpu_invalidate_reservation m.cpu va (size w);
              ctx = vm_bus_write w m.ctx va value;
            })
            va (rw (same_satp m.cpu va (size w)) off),
        vm_bus_read-vm_bus_write w m.ctx va value v ok h,
      )
      refl
