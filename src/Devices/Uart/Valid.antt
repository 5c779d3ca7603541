-- ===== src/Devices/Uart/Valid.antt =====
-- The invariant of the serial port: the ring of received bytes and the widths of the registers.
use risc_v_virtual_machine.Common.{ℕ, ◌+◌, ◌%◌, ◌≤◌, ◌<◌, ◌≡◌, arith}
use risc_v_virtual_machine.Devices.Uart.{Uart, HostInput, input}
use risc_v_virtual_machine.Devices.Uart.{uart_init}
use risc_v_virtual_machine.Devices.Uart.{uart_handle_host_input, uart_read8, uart_write8}

-- The ring: the head is `rx_count` places after the tail.
pub record IsRing (u : Uart) : Type 0 where
  pub tail_lt : u.rx_tail < 16
  pub count_le : u.rx_count ≤ 16
  pub head_eq : u.rx_head ≡ (u.rx_tail + u.rx_count) % 16

-- The registers that a guest reads back, and the cells of the ring, hold bytes.
pub record IsBytes (u : Uart) : Type 0 where
  pub dll_lt : u.dll < 256
  pub dlm_lt : u.dlm < 256
  pub ier_lt : u.ier < 256
  pub lcr_lt : u.lcr < 256
  pub mcr_lt : u.mcr < 256
  pub scr_lt : u.scr < 256
  pub cell_lt : (i : ℕ) → u.rx_fifo i < 256

-- What `read` gives is a byte.
abbrev pub IsByte : HostInput → Type 0
IsByte (input byte) = byte < 256
IsByte _ = Unit

pub uart_init-IsRing : IsRing uart_init
unfolding uart_init
uart_init-IsRing = ground arith

pub uart_init-IsBytes : IsBytes uart_init
unfolding uart_init
uart_init-IsBytes = grind arith

-- Every input of the host, read and write of the guest, at whatever offset, keeps the ring.
pub uart_handle_host_input-IsRing :
    {u : Uart} (i : HostInput) → IsRing u → IsRing (uart_handle_host_input u i)
unfolding uart_handle_host_input
uart_handle_host_input-IsRing (input byte) v = ground arith
uart_handle_host_input-IsRing _ v = v

pub uart_read8-IsRing : {u : Uart} (offset : ℕ) → IsRing u → IsRing (uart_read8 u offset).1
unfolding uart_read8
uart_read8-IsRing offset v = ground arith

pub uart_write8-IsRing :
    {u : Uart} (offset value : ℕ) → IsRing u → IsRing (uart_write8 u offset value)
unfolding uart_write8
uart_write8-IsRing offset value v = ground arith

pub uart_handle_host_input-IsBytes :
    {u : Uart} (i : HostInput) → IsByte i → IsBytes u → IsBytes (uart_handle_host_input u i)
unfolding uart_handle_host_input
uart_handle_host_input-IsBytes (input byte) h v = grind arith
uart_handle_host_input-IsBytes _ h v = v

pub uart_read8-IsBytes : {u : Uart} (offset : ℕ) → IsBytes u → IsBytes (uart_read8 u offset).1
unfolding uart_read8
uart_read8-IsBytes offset v = record {
  dll_lt = ground arith;
  dlm_lt = ground arith;
  ier_lt = ground arith;
  lcr_lt = ground arith;
  mcr_lt = ground arith;
  scr_lt = ground arith;
  cell_lt = λ i. ground (arith, v.cell_lt i);
}

pub uart_write8-IsBytes :
    {u : Uart} (offset value : ℕ) → value < 256 → IsBytes u → IsBytes (uart_write8 u offset value)
unfolding uart_write8
uart_write8-IsBytes offset value h v = record {
  dll_lt = ground arith;
  dlm_lt = ground arith;
  ier_lt = ground arith;
  lcr_lt = ground arith;
  mcr_lt = ground arith;
  scr_lt = ground arith;
  cell_lt = λ i. ground (arith, v.cell_lt i);
}

-- What the guest reads is a byte.
pub uart_read8-lt : {u : Uart} (offset : ℕ) → IsBytes u → (uart_read8 u offset).0 < 256
unfolding uart_read8
uart_read8-lt {u} offset v = ground (arith, v.cell_lt u.rx_tail)
