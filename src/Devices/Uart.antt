-- ===== src/Devices/Uart.antt =====
-- The serial port: src/devices/uart.c and include/devices/uart.h. What the host terminal gives is
-- the argument of `uart_handle_host_input`; what it is given by `putchar` is the field `sent`, the
-- newest byte first. The messages of `log_error` and `perror` are left out.
pub mod Valid
pub mod Fifo
pub mod Refine
use risc_v_virtual_machine.Common.{ℕ, ◌+◌, ◌-◌, ◌*◌, ◌/◌, ◌%◌, ◌^◌, bit_and, bit_or, List, [], ◌∷◌}
use risc_v_virtual_machine.Common.{◌==◌, if◌then◌else◌, is_set, ltb, u8, u16, update, Bool}
use risc_v_virtual_machine.Common.{true, false, ◌&&◌, not}

abbrev pub uart_iir : ℕ
uart_iir = 0x02

abbrev pub uart_fcr : ℕ
uart_fcr = 0x02

abbrev pub uart_lcr : ℕ
uart_lcr = 0x03

abbrev pub uart_mcr : ℕ
uart_mcr = 0x04

abbrev pub uart_lsr : ℕ
uart_lsr = 0x05

abbrev pub uart_msr : ℕ
uart_msr = 0x06

abbrev pub uart_scr : ℕ
uart_scr = 0x07

abbrev pub uart_fifo_size : ℕ
uart_fifo_size = 16

-- The fields of `uart_t`, but for `tx_fifo`, `rbr`, `iir` and `lsr`, which no function uses.
pub record Uart : Type 0 where
  pub rx_fifo : ℕ → ℕ
  pub rx_head : ℕ
  pub rx_tail : ℕ
  pub rx_count : ℕ
  pub tx_head : ℕ
  pub tx_tail : ℕ
  pub tx_count : ℕ
  pub thre_pending : Bool
  pub dll : ℕ
  pub dlm : ℕ
  pub ier : ℕ
  pub fcr : ℕ
  pub lcr : ℕ
  pub mcr : ℕ
  pub scr : ℕ
  pub sent : List ℕ

unfoldable pub uart_init : Uart
uart_init = record {
  rx_fifo = λ _. 0;
  rx_head = 0;
  rx_tail = 0;
  rx_count = 0;
  tx_head = 0;
  tx_tail = 0;
  tx_count = 0;
  thre_pending = false;
  dll = 0;
  dlm = 0;
  ier = 0;
  fcr = 0;
  lcr = 0;
  mcr = 0;
  scr = 0;
  sent = [];
}

-- How `poll` and `read` on the standard input end.
pub data HostInput : Type 0 where
  poll_failed nothing_ready other_event read_failed end_of_input : HostInput
  input : ℕ → HostInput

unfoldable pub receive : Uart → ℕ → Uart
receive u byte = record u {
  rx_fifo = update u.rx_fifo u.rx_head byte;
  rx_head = (u.rx_head + 1) % uart_fifo_size;
  rx_count = u16 (u.rx_count + 1);
}

unfoldable pub uart_handle_host_input : Uart → HostInput → Uart
unfolding receive
uart_handle_host_input u (input byte) = if u.rx_count == uart_fifo_size then u else receive u byte
uart_handle_host_input u poll_failed = u
uart_handle_host_input u nothing_ready = u
uart_handle_host_input u other_event = u
uart_handle_host_input u read_failed = u
uart_handle_host_input u end_of_input = u

-- The tests of single bits: `u->lcr & UART_LCR_DLAB` and the like.
abbrev pub dlab : Uart → Bool
dlab u = is_set (bit_and u.lcr 0x80)

abbrev pub rx_available_enabled : ℕ → Bool
rx_available_enabled ier = is_set (bit_and ier 0x01)

abbrev pub thr_empty_enabled : ℕ → Bool
thr_empty_enabled ier = is_set (bit_and ier 0x02)

-- `rx_count` is tested against 0 first, so the truncated `-` is exact.
read_rbr : Uart → ℕ × Uart
read_rbr u = if u.rx_count == 0 then (0, u) else (
  u.rx_fifo u.rx_tail,
  record u { rx_tail = (u.rx_tail + 1) % uart_fifo_size; rx_count = u.rx_count - 1 },
)

read_iir : Uart → ℕ × Uart
read_iir u =
    let fifo = if is_set (bit_and u.fcr 0x01) then 0xC0 else 0 in
    if rx_available_enabled u.ier && ltb 0 u.rx_count
    then (bit_or fifo 0x04, u)
    else if thr_empty_enabled u.ier && u.thre_pending
    then (bit_or fifo 0x02, record u { thre_pending = false })
    else (bit_or fifo 0x01, u)

read_lsr : Uart → ℕ
read_lsr u = let lsr = bit_or 0x20 0x40 in if ltb 0 u.rx_count then bit_or lsr 0x01 else lsr

unfoldable pub uart_read8 : Uart → ℕ → ℕ × Uart
unfolding read_rbr read_iir read_lsr
uart_read8 u offset =
    if offset == 0x00
    then (if dlab u then (u.dll, u) else read_rbr u)
    else if offset == 0x01
    then (if dlab u then u.dlm else u.ier, u)
    else if offset == uart_iir
    then read_iir u
    else if offset == uart_lcr
    then (u.lcr, u)
    else if offset == uart_mcr
    then (u.mcr, u)
    else if offset == uart_lsr
    then (read_lsr u, u)
    else if offset == uart_msr
    then (0x00, u)
    else if offset == uart_scr
    then (u.scr, u)
    else (0, u)

write_ier : Uart → ℕ → Uart
write_ier u value =
    let old_ier = u.ier in
    let u1 = record u { ier = value } in
    let u2 = if not (thr_empty_enabled u1.ier) then record u1 { thre_pending = false } else u1 in
    if not (thr_empty_enabled old_ier) && thr_empty_enabled u2.ier && u2.tx_count == 0
    then record u2 { thre_pending = true }
    else u2

write_fcr : Uart → ℕ → Uart
write_fcr u value =
    let u1 =
      if is_set (bit_and value 0x02)
      then record u { rx_head = 0; rx_tail = 0; rx_count = 0 }
      else u in
    let u2 =
      if is_set (bit_and value 0x04)
      then record u1 { tx_head = 0; tx_tail = 0; tx_count = 0 }
      else u1 in
    record u2 { fcr = u8 (bit_and value (2 ^ 32 - 1 - bit_or 0x02 0x04)) }

unfoldable pub uart_write8 : Uart → ℕ → ℕ → Uart
unfolding write_ier write_fcr
uart_write8 u offset value =
    if offset == 0x00
    then (if dlab u
        then record u { dll = value }
        else record u { sent = value ∷ u.sent; thre_pending = true })
    else if offset == 0x01
    then (if dlab u then record u { dlm = value } else write_ier u value)
    else if offset == uart_fcr
    then write_fcr u value
    else if offset == uart_lcr
    then record u { lcr = value }
    else if offset == uart_mcr
    then record u { mcr = value }
    else if offset == uart_lsr
    then u
    else if offset == uart_msr
    then u
    else if offset == uart_scr
    then record u { scr = value }
    else u
