-- ===== src/Bus/Routing.antt =====
-- The accesses of src/memory/bus.c by width, and which part of the platform they reach.
use risc_v_virtual_machine.Common.{ℕ, ◌^◌, ◌<◌, ◌≡◌, refl, arith}
use risc_v_virtual_machine.Common.{true, false}
use risc_v_virtual_machine.Memory.{valid_access}
use risc_v_virtual_machine.Memory.Bytes.{
  IsBytes, Width, byte, half, word, double, size, mem_read, mem_write,
}
use risc_v_virtual_machine.Memory.RoundTrip.{mem_read-mem_write}
use risc_v_virtual_machine.Bus.{Platform, vm_bus_read8, vm_bus_read16, vm_bus_read32, vm_bus_read64}
use risc_v_virtual_machine.Bus.{vm_bus_write8, vm_bus_write16, vm_bus_write32, vm_bus_write64}
use risc_v_virtual_machine.Bus.{addr_in_range, ram_base, ram_size}

abbrev pub vm_bus_read : Width → Platform → ℕ → ℕ × Platform
vm_bus_read byte = vm_bus_read8
vm_bus_read half = vm_bus_read16
vm_bus_read word = vm_bus_read32
vm_bus_read double = vm_bus_read64

abbrev pub vm_bus_write : Width → Platform → ℕ → ℕ → Platform
vm_bus_write byte = vm_bus_write8
vm_bus_write half = vm_bus_write16
vm_bus_write word = vm_bus_write32
vm_bus_write double = vm_bus_write64

in_ram :
    (w : Width) (address : ℕ)
    → valid_access address (size w) ≡ true
    → addr_in_range address ram_base ram_size ≡ true
unfolding valid_access
in_ram byte address h = ground arith
in_ram half address h = ground arith
in_ram word address h = ground arith
in_ram double address h = ground arith

pub vm_bus_read_ram :
    (w : Width) (vm : Platform) (address : ℕ)
    → addr_in_range address ram_base ram_size ≡ true
    → vm_bus_read w vm address ≡ (mem_read w vm.ram address, vm)
unfolding vm_bus_read8 vm_bus_read16 vm_bus_read32 vm_bus_read64
vm_bus_read_ram byte vm address h = rw h refl
vm_bus_read_ram half vm address h = rw h refl
vm_bus_read_ram word vm address h = rw h refl
vm_bus_read_ram double vm address h = rw h refl

pub vm_bus_write_ram :
    (w : Width) (vm : Platform) (address value : ℕ)
    → addr_in_range address ram_base ram_size ≡ true
    → vm_bus_write w vm address value ≡ record vm { ram = mem_write w vm.ram address value }
unfolding vm_bus_write8 vm_bus_write16 vm_bus_write32 vm_bus_write64
vm_bus_write_ram byte vm address value h = rw h refl
vm_bus_write_ram half vm address value h = rw h refl
vm_bus_write_ram word vm address value h = rw h refl
vm_bus_write_ram double vm address value h = rw h refl

-- A value written to RAM over the bus is read back, and the read changes nothing.
pub vm_bus_read-vm_bus_write :
    (w : Width) (vm : Platform) (address value : ℕ)
    → IsBytes vm.ram
    → valid_access address (size w) ≡ true
    → value < 256 ^ size w
    → vm_bus_read w (vm_bus_write w vm address value) address
      ≡ (value, vm_bus_write w vm address value)
vm_bus_read-vm_bus_write w vm address value v ok h =
    let ram = in_ram w address ok in
    rw
      (
        vm_bus_write_ram w vm address value ram,
        vm_bus_read_ram w (record vm { ram = mem_write w vm.ram address value }) address ram,
        mem_read-mem_write w address value v ok h,
      )
      refl

-- An access that is not to RAM leaves RAM as it is.
pub vm_bus_outside_ram :
    (w : Width) (vm : Platform) (address value : ℕ)
    → addr_in_range address ram_base ram_size ≡ false
    → ((vm_bus_read w vm address).1.ram ≡ vm.ram) × ((vm_bus_write w vm address value).ram ≡ vm.ram)
unfolding vm_bus_read8 vm_bus_read16 vm_bus_read32 vm_bus_read64 vm_bus_write8 vm_bus_write16
    vm_bus_write32 vm_bus_write64
vm_bus_outside_ram byte vm address value h = ground arith
vm_bus_outside_ram half vm address value h = ground arith
vm_bus_outside_ram word vm address value h = ground arith
vm_bus_outside_ram double vm address value h = ground arith

-- A read of 16, 32 or 64 bits changes no device, whatever it reads.
pub vm_bus_read64_pure : (vm : Platform) (address : ℕ) → (vm_bus_read64 vm address).1 ≡ vm
unfolding vm_bus_read64
vm_bus_read64_pure vm address = ground arith
