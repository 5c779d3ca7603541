-- ===== src/Examples/Devices.antt =====
-- RAM, the timer, the serial port and the bus at concrete inputs.
use risc_v_virtual_machine.Common.{
  ℕ, none, ◌+◌, ◌-◌, ◌*◌, ◌%◌, ◌^◌, ◌≤◌, ◌<◌, ◌≡◌, ◌↔◌, refl, arith, inl, inr, true, if◌then◌else◌,
  List, [], ◌∷◌, leb,
}
use risc_v_virtual_machine.Memory.{memory_init, valid_access, mem_base, mem_size}
use risc_v_virtual_machine.Memory.Bytes.{
  IsBytes, half, word, double, mem_read, mem_write, load_bytes, store_bytes, mem_read-eq-load_bytes,
}
use risc_v_virtual_machine.Memory.Stores.{mem_write-eq-store_bytes}
use risc_v_virtual_machine.Memory.RoundTrip.{
  mem_read-mem_write, mem_read-mem_write_apart, valid_access_iff,
}
use risc_v_virtual_machine.Devices.Timer.{
  Timer, timer_read32, timer_read64, timer_write32, timer_write64, timer_mtimecmp, timer_msip,
}
use risc_v_virtual_machine.Devices.Timer.Laws.{
  timer_read-timer_write64, timer_write32_keeps_time, timer_write64_msip_clobbers,
}
use risc_v_virtual_machine.Devices.Uart.{uart_init, uart_read8, input}
use risc_v_virtual_machine.Devices.Uart.Valid
use risc_v_virtual_machine.Devices.Uart.Refine.{
  Event, host, read, write, Spec, Refines, Agrees, run, spec_run, run-Refines, uart_init-Refines,
}
use risc_v_virtual_machine.Bus.{Platform}
use risc_v_virtual_machine.Bus.Routing.{vm_bus_read, vm_bus_write, vm_bus_read-vm_bus_write}
use risc_v_virtual_machine.Vm.{Vm, vm_init}
use risc_v_virtual_machine.Common.{some, ltb, ◌&&◌, ◌-◌}
use risc_v_virtual_machine.Vm.Load.{vm_load_bin, get_byte, vm_load_bin_lem}
use risc_v_virtual_machine.Vm.Load.Overruns.{vm_load_bin-overruns}
use risc_v_virtual_machine.Vm.Main.{Main}

memory_init-IsBytes : IsBytes memory_init
unfolding memory_init
memory_init-IsBytes = record { byte_lt = λ i. omega arith }

valid_access_iff_example :
    (valid_access 0x80000010 8 ≡ true)
    ↔ ((mem_base ≤ 0x80000010) × (0x80000010 + 8 ≤ mem_base + mem_size))
valid_access_iff_example = valid_access_iff 0x80000010 8 (omega arith)

mem_read-mem_write_example :
    mem_read word (mem_write word memory_init 0x80000010 0xDEADBEEF) 0x80000010 ≡ 0xDEADBEEF
mem_read-mem_write_example =
    mem_read-mem_write word {m = memory_init} 0x80000010 0xDEADBEEF memory_init-IsBytes
      (unfold valid_access in refl) (omega arith)

mem_read-mem_write_apart_example :
    mem_read half (mem_write word memory_init 0x80000010 0xDEADBEEF) 0x80000014
    ≡ mem_read half memory_init 0x80000014
mem_read-mem_write_apart_example =
    mem_read-mem_write_apart word half {m = memory_init} 0x80000010 0x80000014 0xDEADBEEF
      memory_init-IsBytes (omega arith) (inr (omega arith))

mem_read-eq-load_bytes_example :
    mem_read double memory_init 0x80000010
    ≡ (if valid_access 0x80000010 8 then load_bytes memory_init (0x80000010 - mem_base) 8 else 0)
mem_read-eq-load_bytes_example =
    mem_read-eq-load_bytes {m = memory_init} memory_init-IsBytes 0x80000010 double

mem_write-eq-store_bytes_example : mem_write word memory_init 0x80000010 0xDEADBEEF ≡ (
    if valid_access 0x80000010 4
    then store_bytes memory_init (0x80000010 - mem_base) 4 0xDEADBEEF
    else memory_init)
mem_write-eq-store_bytes_example =
    mem_write-eq-store_bytes word memory_init 0x80000010 0xDEADBEEF (omega arith)

abbrev running : Timer
running = record { msip = 0; mtime = 7; mtimecmp = 0x123456789 }

timer_read-timer_write64_example :
    let t' = timer_write64 running timer_mtimecmp 0xA00000003 in
    (timer_read64 t' timer_mtimecmp ≡ 0xA00000003)
    × (timer_read32 t' (timer_mtimecmp + 4) * 2 ^ 32 + timer_read32 t' timer_mtimecmp ≡ 0xA00000003)
timer_read-timer_write64_example =
    timer_read-timer_write64 running timer_mtimecmp 0xA00000003 (omega arith) (inl refl)

timer_write32_keeps_time_example :
    ((timer_write32 running timer_mtimecmp 5).mtime ≡ running.mtime)
    × ((timer_write32 running timer_mtimecmp 5).mtimecmp ≡ running.mtimecmp)
timer_write32_keeps_time_example = timer_write32_keeps_time running timer_mtimecmp 5

timer_write64_msip_clobbers_example :
    (timer_read64 (timer_write64 running timer_msip 1) timer_msip ≡ 1 % 2)
    × (timer_read64 (timer_write64 running timer_msip 1) timer_mtimecmp ≡ 1)
    × ((timer_write64 running timer_msip 1).mtime ≡ running.mtime)
timer_write64_msip_clobbers_example = timer_write64_msip_clobbers running 1

abbrev typing : List Event
typing = host (input 104) ∷ host (input 105) ∷ read 5 ∷ read 0 ∷ write 2 2 ∷ read 0 ∷ []

abbrev idle : Spec
idle = record { waiting = []; lcr = 0 }

run-Refines_example :
    Refines (run uart_init typing) (spec_run idle typing) × Agrees uart_init idle typing
run-Refines_example = run-Refines {u = uart_init} {s = idle} typing uart_init-Refines

uart_read8-lt_example : (uart_read8 uart_init 0).0 < 256
uart_read8-lt_example = Valid.uart_read8-lt {u = uart_init} 0 Valid.uart_init-IsBytes

abbrev platform : Platform
platform = record { ram = memory_init; timer = running; uart = uart_init }

vm_bus_read-vm_bus_write_example :
    vm_bus_read double (vm_bus_write double platform 0x80000100 77) 0x80000100
    ≡ (77, vm_bus_write double platform 0x80000100 77)
vm_bus_read-vm_bus_write_example =
    vm_bus_read-vm_bus_write double platform 0x80000100 77 memory_init-IsBytes
      (unfold valid_access in refl) (omega arith)

vm_load_bin_example :
    let dst = 0x80000100 - mem_base in
    (vm' : Vm) × (vm_load_bin vm_init (some (7 ∷ 8 ∷ [])) 0x80000100 ≡ some (0, vm'))
    × ((j : ℕ)
        → vm'.ctx.ram.mem j ≡ (
            if leb dst j && ltb j (dst + 2)
            then get_byte (7 ∷ 8 ∷ []) (j - dst)
            else vm_init.ctx.ram.mem j))
    × (vm'.cpu ≡ vm_init.cpu)
    × (vm'.ctx.timer ≡ vm_init.ctx.timer)
    × (vm'.ctx.uart ≡ vm_init.ctx.uart)
vm_load_bin_example = vm_load_bin_lem vm_init (7 ∷ 8 ∷ []) 0x80000100 (omega arith) (omega arith)

-- Two bytes at the last cell of RAM.
vm_load_bin-overruns_example : vm_load_bin vm_init (some (7 ∷ 8 ∷ [])) 0x83FFFFFF ≡ none
vm_load_bin-overruns_example =
    vm_load_bin-overruns vm_init (7 ∷ 8 ∷ []) 0x83FFFFFF (omega arith) (omega arith)
      (inr (omega arith))

abbrev started : Main
started = record { vm = vm_init; counter = 998 }
