-- ===== src/Vm/Main.antt =====
-- `main` of apps/vm_main.c: the start and the loop, with the poll of the host every thousand
-- rounds.
pub mod Valid
use risc_v_virtual_machine.Common.{
  ℕ, ◌+◌, List, [], ◌∷◌, ◌<◌, arith, Option, none, some, if◌then◌else◌, ◌==◌, u32, update, is_set,
}
use risc_v_virtual_machine.Devices.Uart.{HostInput, uart_handle_host_input}
use risc_v_virtual_machine.Bus.{ram_base}
use risc_v_virtual_machine.Cpu.{m_mode}
use risc_v_virtual_machine.Vm.{Vm, vm_init, vm_round}
use risc_v_virtual_machine.Vm.Load.{vm_load_bin}

-- How the start ends: with an outcome that C leaves undefined, with `exit`, or with the loop.
pub data Start : Type 0 where
  undefined exits : Start
  starts : Vm → Start

infixl 5 ◌>>=◌
abbrev pub ◌>>=◌ : Start → (Vm → Start) → Start
undefined >>= f = undefined
exits >>= f = exits
starts vm >>= f = f vm

-- `vm_load_bin`, and `exit` if it fails.
abbrev pub load_or_exit : Option (List ℕ) → ℕ → Vm → Start
load_or_exit file addr vm = elim (vm_load_bin vm file addr) [
  | none ↦ undefined
  | some result ↦ if is_set result.0 then exits else starts result.1
]

-- The state in which the loop starts, from the contents of the three files.
unfoldable pub main_start : Option (List ℕ) → Option (List ℕ) → Option (List ℕ) → Start
main_start firmware device_tree kernel = do
  vm1 ← load_or_exit firmware ram_base vm_init
  vm2 ← load_or_exit device_tree (ram_base + 0x02200000) vm1
  vm3 ← load_or_exit kernel 0x80200000 vm2
  let cpu = vm3.cpu
  starts (record vm3 {
    cpu = record cpu {
      pc = 0x80000000;
      regs = update (update cpu.regs 10 0) 11 0x82200000;
      priviledge = m_mode;
    };
  })

-- The loop's state.
pub record Main : Type 0 where
  pub vm : Vm
  pub counter : ℕ

-- A round; the input is what the host gives if it is polled.
unfoldable pub main_round : Main → HostInput → Main
main_round main host =
    let vm = vm_round main.vm in
    let platform = vm.ctx in
    let counter = u32 (main.counter + 1) in
    let polled = record vm {
      ctx = record platform { uart = uart_handle_host_input platform.uart host };
    } in
    if counter == 1000
    then record { vm = polled; counter = 0 }
    else record { vm = vm; counter = counter }

-- A round for each input of the list.
unfoldable pub main_loop : Main → List HostInput → Main
main_loop main [] = main
main_loop main (host ∷ hosts) = main_loop (main_round main host) hosts

main_round_counter-lt :
    (main : Main) (host : HostInput) → main.counter < 1000 → (main_round main host).counter < 1000
unfolding main_round
main_round_counter-lt main host h = ground arith

-- From a counter below a thousand, every number of rounds leaves it below a thousand, so it never
-- wraps.
pub main_loop_counter-lt :
    (main : Main) (hosts : List HostInput)
    → main.counter < 1000
    → (main_loop main hosts).counter < 1000
unfolding main_loop
main_loop_counter-lt main [] h = h
main_loop_counter-lt main (host ∷ hosts) h =
    main_loop_counter-lt (main_round main host) hosts (main_round_counter-lt main host h)
