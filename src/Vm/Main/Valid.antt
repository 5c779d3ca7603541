-- ===== src/Vm/Main/Valid.antt =====
-- The invariant of the machine over the whole of `main` of apps/vm_main.c: the start, the files that
-- it loads, and the loop.
use risc_v_virtual_machine.Common.{List, [], ◌∷◌}
use risc_v_virtual_machine.Memory.{Memory}
use risc_v_virtual_machine.Devices.Uart.{HostInput}
use risc_v_virtual_machine.Devices.Uart.Valid.{IsByte}
use risc_v_virtual_machine.Bus.{vm_bus}
use risc_v_virtual_machine.Bus.Valid.{IsPlatform}
use risc_v_virtual_machine.Cpu.{Cpu}
use risc_v_virtual_machine.Cpu.Fits.{Fits}
use risc_v_virtual_machine.Cpu.Fits.Memory.{Valid}
use risc_v_virtual_machine.Vm.{Vm}
use risc_v_virtual_machine.Vm.Main.{Start, undefined, exits, starts, Main}

-- The host gives bytes.
abbrev pub AreInputs : List HostInput → Type 0
AreInputs [] = Unit
AreInputs (host ∷ hosts) = IsByte host × AreInputs hosts

-- A state of `main` before the loop is valid if there is one.
abbrev pub Started : Start → Type 0
Started undefined = Unit
Started exits = Unit
Started (starts vm) = Valid IsPlatform vm
