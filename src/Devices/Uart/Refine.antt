-- ===== src/Devices/Uart/Refine.antt =====
-- The serial port against a bounded queue of bytes: what the host sends and the guest takes.
use risc_v_virtual_machine.Common.{ℕ, zero, suc, ◌+◌, ◌-◌, ◌%◌, ◌≡◌}
use risc_v_virtual_machine.Common.{refl, ap, arith, List, [], ◌∷◌, ◌++◌, Option, none, some}
use risc_v_virtual_machine.Common.{Bool, ◌==◌, if◌then◌else◌, is_set, bit_and}
use risc_v_virtual_machine.Common.{ltb, length, ==_iff, Bool-cases, inl, inr}
use risc_v_virtual_machine.Devices.Uart.{Uart, HostInput, input, poll_failed, nothing_ready}
use risc_v_virtual_machine.Devices.Uart.{other_event, read_failed, end_of_input}
use risc_v_virtual_machine.Devices.Uart.{uart_handle_host_input, uart_read8, uart_write8}
use risc_v_virtual_machine.Devices.Uart.{uart_init, dlab, uart_fcr, uart_lcr, uart_lsr}
use risc_v_virtual_machine.Devices.Uart.Fifo.{queue, queue-update}
use risc_v_virtual_machine.Devices.Uart.Valid.{
  IsRing, uart_init-IsRing, uart_handle_host_input-IsRing,
}
use risc_v_virtual_machine.Devices.Uart.Valid.{uart_read8-IsRing, uart_write8-IsRing}

-- What happens to the port: input of the host, a read or a write of the guest.
pub data Event : Type 0 where
  host : HostInput → Event
  read : ℕ → Event
  write : ℕ → ℕ → Event

-- The new state, and the byte that a read gives.
pub step : Uart → Event → Uart × ℕ
step u (host i) = (uart_handle_host_input u i, 0)
step u (read offset) = let (byte, u') = uart_read8 u offset in (u', byte)
step u (write offset value) = (uart_write8 u offset value, 0)

-- The specification: the bytes that wait, and the register that says what offset 0 means.
pub record Spec : Type 0 where
  pub waiting : List ℕ
  pub lcr : ℕ

abbrev divisor_latch : Spec → Bool
divisor_latch s = is_set (bit_and s.lcr 0x80)

-- A byte goes to the end, unless sixteen wait; a read of offset 0 takes the first.
send : List ℕ → ℕ → List ℕ
send q byte = if ltb (length q) 16 then q ++ (byte ∷ []) else q

take : List ℕ → List ℕ × ℕ
take [] = ([], 0)
take (byte ∷ q) = (q, byte)

pub spec_step : Spec → Event → Spec
spec_step s (host (input byte)) = record s { waiting = send s.waiting byte }
spec_step s (host _) = s
spec_step s (read offset) =
    if offset == 0
    then (if divisor_latch s then s else record s { waiting = (take s.waiting).0 })
    else s
spec_step s (write offset value) =
    if offset == uart_fcr
    then (if is_set (bit_and value 0x02) then record s { waiting = [] } else s)
    else if offset == uart_lcr
    then record s { lcr = value }
    else s

-- What the specification says of the byte that a read gives: the first that waits, 0 if none
-- does, and in the line status whether one does.
pub spec_reply : Spec → Event → Option ℕ
spec_reply s (read offset) =
    if offset == 0
    then (if divisor_latch s then none else some (take s.waiting).1)
    else if offset == uart_lsr
    then some (if ltb 0 (length s.waiting) then 0x61 else 0x60)
    else none
spec_reply s _ = none

pub record Refines (u : Uart) (s : Spec) : Type 0 where
  pub ring : IsRing u
  pub same_queue : queue u.rx_fifo u.rx_tail u.rx_count ≡ s.waiting
  pub same_lcr : u.lcr ≡ s.lcr

length-queue : (f : ℕ → ℕ) (tail n : ℕ) → length (queue f tail n) ≡ n
unfolding queue
length-queue f tail zero = refl
length-queue f tail (suc n) = ap suc (length-queue f ((tail + 1) % 16) n)

take-queue :
    (f : ℕ → ℕ) (tail n : ℕ)
    → take (queue f tail n)
      ≡ (if n == 0 then ([], 0) else (queue f ((tail + 1) % 16) (n - 1), f tail))
unfolding take queue
take-queue f tail zero = refl
take-queue f tail (suc n) = ground arith

queue-none : (f : ℕ → ℕ) (tail : ℕ) {n : ℕ} → n ≡ 0 → queue f tail n ≡ []
unfolding queue
queue-none f tail e = rw e

step-Refines-host :
    {u : Uart} {s : Spec} (byte : ℕ)
    → Refines u s
    → Refines (uart_handle_host_input u (input byte)) (spec_step s (host (input byte)))
unfolding uart_handle_host_input spec_step send
step-Refines-host {u} {s} byte r = record {
  ring = uart_handle_host_input-IsRing (input byte) r.ring;
  same_queue = ground (
    arith,
    length-queue u.rx_fifo u.rx_tail u.rx_count,
    queue-update u.rx_fifo byte u.rx_count u.rx_tail u.rx_head,
  );
  same_lcr = ground arith;
}

abbrev bytes_waiting : Uart → List ℕ
bytes_waiting u = queue u.rx_fifo u.rx_tail u.rx_count

-- A read of offset 0 takes the first byte, and any other read none.
bytes_waiting-uart_read8 :
    (u : Uart) (offset : ℕ)
    → bytes_waiting (uart_read8 u offset).1 ≡ (
        if offset == 0
        then (if dlab u then bytes_waiting u else (take (bytes_waiting u)).0)
        else bytes_waiting u)
unfolding uart_read8
bytes_waiting-uart_read8 u offset = elim (Bool-cases (offset == 0)) [
  | inr other ↦ ground arith
  | inl rbr ↦ elim (Bool-cases (dlab u)) [
    | inl latch ↦ rw (rbr, latch)
    | inr data_register ↦ elim (Bool-cases (u.rx_count == 0)) [
      | inl empty ↦
          rw (rbr, data_register, take-queue u.rx_fifo u.rx_tail u.rx_count, empty)
            (queue-none u.rx_fifo u.rx_tail ((==_iff u.rx_count 0).0 empty))
      | inr some_left ↦
          rw (rbr, data_register, take-queue u.rx_fifo u.rx_tail u.rx_count, some_left)
    ]
  ]
]

lcr-uart_read8 : (u : Uart) (offset : ℕ) → (uart_read8 u offset).1.lcr ≡ u.lcr
unfolding uart_read8
lcr-uart_read8 u offset = ground arith

step-Refines-read :
    {u : Uart} {s : Spec} (offset : ℕ)
    → Refines u s
    → Refines (uart_read8 u offset).1 (spec_step s (read offset))
unfolding spec_step
step-Refines-read {u} {s} offset r = record {
  ring = uart_read8-IsRing offset r.ring;
  same_queue = ground (arith, bytes_waiting-uart_read8 u offset);
  same_lcr = ground (arith, lcr-uart_read8 u offset);
}

step-Refines-write :
    {u : Uart} {s : Spec} (offset value : ℕ)
    → Refines u s
    → Refines (uart_write8 u offset value) (spec_step s (write offset value))
unfolding uart_write8 spec_step queue
step-Refines-write {u} {s} offset value r = record {
  ring = uart_write8-IsRing offset value r.ring;
  same_queue = ground arith;
  same_lcr = ground arith;
}

step-Refines :
    {u : Uart} {s : Spec} (e : Event) → Refines u s → Refines (step u e).0 (spec_step s e)
unfolding step
step-Refines (host (input byte)) r = step-Refines-host byte r
step-Refines (host poll_failed) r = unfold uart_handle_host_input spec_step in r
step-Refines (host nothing_ready) r = unfold uart_handle_host_input spec_step in r
step-Refines (host other_event) r = unfold uart_handle_host_input spec_step in r
step-Refines (host read_failed) r = unfold uart_handle_host_input spec_step in r
step-Refines (host end_of_input) r = unfold uart_handle_host_input spec_step in r
step-Refines (read offset) r = step-Refines-read offset r
step-Refines (write offset value) r = step-Refines-write offset value r

-- What the specification says of a byte, if it says anything.
abbrev pub Gives : Option ℕ → ℕ → Type 0
Gives none byte = Unit {0}
Gives (some expected) byte = byte ≡ expected

read_reply :
    (u : Uart) (s : Spec) (offset expected : ℕ)
    → Refines u s
    → spec_reply s (read offset) ≡ some expected
    → (uart_read8 u offset).0 ≡ expected
unfolding spec_reply uart_read8
read_reply u s offset expected r h =
    ground (
      arith,
      take-queue u.rx_fifo u.rx_tail u.rx_count,
      length-queue u.rx_fifo u.rx_tail u.rx_count,
    )

Gives-of_eq :
    (o : Option ℕ) (byte : ℕ)
    → ((expected : ℕ) → o ≡ some expected → byte ≡ expected)
    → Gives o byte
Gives-of_eq none byte h = tt
Gives-of_eq (some expected) byte h = h expected refl

step-Gives : {u : Uart} {s : Spec} (e : Event) → Refines u s → Gives (spec_reply s e) (step u e).1
step-Gives (host i) r = unfold spec_reply in tt
step-Gives {u} {s} (read offset) r =
    unfold step in
    Gives-of_eq (spec_reply s (read offset)) (uart_read8 u offset).0
      (λ expected h. read_reply u s offset expected r h)
step-Gives (write offset value) r = unfold spec_reply in tt

-- The replies of a run agree wherever the specification has one.
abbrev pub Agrees : Uart → Spec → List Event → Type 0
Agrees u s [] = Unit {0}
Agrees u s (e ∷ es) = Gives (spec_reply s e) (step u e).1 × Agrees (step u e).0 (spec_step s e) es

pub run : Uart → List Event → Uart
run u [] = u
run u (e ∷ es) = run (step u e).0 es

pub spec_run : Spec → List Event → Spec
spec_run s [] = s
spec_run s (e ∷ es) = spec_run (spec_step s e) es

-- From a state that refines a queue, every run of the port, whatever the host sends and the guest
-- reads and writes, refines the run of the queue, and its replies agree with the queue's.
pub run-Refines :
    {u : Uart} {s : Spec} (es : List Event)
    → Refines u s
    → Refines (run u es) (spec_run s es) × Agrees u s es
unfolding run spec_run
run-Refines [] r = (r, tt)
run-Refines {u} {s} (e ∷ es) r =
    let rest = run-Refines {u = (step u e).0} {s = spec_step s e} es (step-Refines e r) in
    (rest.0, (step-Gives {u = u} {s = s} e r, rest.1))

pub uart_init-Refines : Refines uart_init (record { waiting = []; lcr = 0 })
unfolding uart_init queue
uart_init-Refines = record { ring = uart_init-IsRing; same_queue = refl; same_lcr = refl }
