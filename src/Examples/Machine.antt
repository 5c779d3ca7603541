-- ===== src/Examples/Machine.antt =====
-- The whole machine at concrete inputs.
use risc_v_virtual_machine.Common.{ℕ, ◌≤◌, ◌≢◌, field, ◌≡◌, refl, List, [], ◌∷◌, Option, some}
use risc_v_virtual_machine.Devices.Uart.{HostInput, input, nothing_ready}
use risc_v_virtual_machine.Bus.{Platform, vm_bus}
use risc_v_virtual_machine.Cpu.{Machine, m_mode}
use risc_v_virtual_machine.Cpu.Csr.{csr_write, csr_read_only, csr_can_write, csr_table}
use risc_v_virtual_machine.Cpu.Csr.Table.{csr_load}
use risc_v_virtual_machine.Cpu.Csr.Handlers.{sstatus_write}
use risc_v_virtual_machine.Cpu.Csr.Frame.{holder, Changes, csr_write-Changes}
use risc_v_virtual_machine.Cpu.Fits.Memory.{Valid}
use risc_v_virtual_machine.Vm.{Vm, vm_init}
use risc_v_virtual_machine.Vm.Main.{Start, undefined, exits, starts, main_start}
use risc_v_virtual_machine.Examples.User.{user_machine}

-- `addi x1, x0, 5`.
abbrev image : Option (List ℕ)
image = some (0x93 ∷ 0x00 ∷ 0x50 ∷ 0x00 ∷ [])

abbrev machine_of : Start → Vm
machine_of undefined = vm_init
machine_of exits = vm_init
machine_of (starts vm) = vm

abbrev started : Vm
started = machine_of (main_start image (some []) image)

abbrev typing : List HostInput
typing = input 65 ∷ nothing_ready ∷ []

abbrev machine_mode : Machine Platform
machine_mode =
    let cpu = user_machine.cpu in record user_machine { cpu = record cpu { priviledge = m_mode } }

abbrev after_write : Machine Platform
after_write = let cpu = machine_mode.cpu in record machine_mode { cpu = sstatus_write cpu 0x122 }

csr_write-sstatus : csr_write machine_mode 0x100 0x122 ≡ some after_write
unfolding csr_write csr_table csr_load csr_can_write
csr_write-sstatus = refl

csr_write-Changes_example :
    Changes (holder 0x100) machine_mode.cpu after_write.cpu
    × (after_write.ctx ≡ machine_mode.ctx)
    × (0x1 ≤ machine_mode.cpu.priviledge)
    × (field 0x100 10 2 ≢ csr_read_only)
csr_write-Changes_example = csr_write-Changes machine_mode after_write 0x100 0x122 csr_write-sstatus
