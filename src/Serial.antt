-- ===== src/Serial.antt =====
-- src/serial.rs: the driver of COM1. The UART is a parameter, which answers IN and OUT of src/port.rs; the
-- log keeps what was read and written, the latest access first.
use aleph0_virtualization_hy.Base.{
  ℕ, zero, suc, ◌+◌, ◌*◌, ◌/◌, ◌%◌, ◌^◌, Bool, true, false, Option, none, some, List, [], ◌∷◌,
  bit_and, bit_or, shr, u8, ◌==◌, ◌!=◌, if◌then◌else◌, Result, ok, err,
}
pub mod Chip
pub mod Wire
pub mod Polled
pub mod Probe

abbrev pub com1 : ℕ
com1 = 0x3F8

abbrev pub data_register : ℕ
data_register = 0

abbrev pub interrupt_enable : ℕ
interrupt_enable = 1

abbrev pub fifo_control : ℕ
fifo_control = 2

abbrev pub line_control : ℕ
line_control = 3

abbrev pub modem_control : ℕ
modem_control = 4

abbrev pub line_status : ℕ
line_status = 5

abbrev pub line_8n1 : ℕ
line_8n1 = 3

abbrev pub line_dlab : ℕ
line_dlab = 2 ^ 7

abbrev pub fifo_enable_and_clear : ℕ
fifo_enable_and_clear = 0xC7

abbrev pub modem_ready : ℕ
modem_ready = 0xB

abbrev pub modem_loopback : ℕ
modem_loopback = 2 ^ 4

abbrev pub status_data_ready : ℕ
status_data_ready = 1

abbrev pub status_transmit_empty : ℕ
status_transmit_empty = 2 ^ 5

abbrev pub spin_limit : ℕ
spin_limit = 100000

abbrev pub probe : ℕ
probe = 0xAE

-- `as u16`; the callers' `baud` is not 0.
abbrev pub divisor : ℕ → ℕ
divisor baud = 115200 / baud % 2 ^ 16

pub data SerialError : Type 0 where
  loopback_failed : SerialError

-- What IN of a port reads, and what IN and OUT make of the device.
pub record Uart (D : Type 0) : Type 0 where
  pub input : ℕ → D → ℕ × D
  pub output : ℕ → ℕ → D → D

-- Port and value.
pub data Access : Type 0 where
  was_read was_written : ℕ → ℕ → Access

-- `ready` is the static READY.
pub record Com1 (D : Type 0) : Type 0 where
  pub device : D
  pub ready : Bool
  pub log : List Access

module _ {D : Type 0} (uart : Uart D) where
  abbrev pub outb : ℕ → ℕ → Com1 D → Com1 D
  outb port value s = record s {
    device = uart.output port value s.device;
    log = was_written port value ∷ s.log;
  }

  abbrev pub inb : ℕ → Com1 D → ℕ × Com1 D
  inb port s =
      let (value, device) = uart.input port s.device in
      (value, record s { device = device; log = was_read port value ∷ s.log })

  -- The loop of `init`: polls left, and the byte that came back.
  unfoldable pub received : ℕ → Com1 D → Option ℕ × Com1 D
  received zero s = (none, s)
  received (suc polls) s =
      let (status, polled) = inb (com1 + line_status) s in
      elim (bit_and status status_data_ready != 0) [
        | true ↦ let (value, taken) = inb (com1 + data_register) polled in (some value, taken)
        | false ↦ received polls polled
      ]

  abbrev pub set_up : Com1 D → Com1 D
  set_up s =
      let quiet = outb (com1 + interrupt_enable) 0 s in
      let latched = outb (com1 + line_control) line_dlab quiet in
      let low = outb (com1 + data_register) (u8 (divisor 115200)) latched in
      let high = outb (com1 + interrupt_enable) (u8 (shr (divisor 115200) 8)) low in
      let framed = outb (com1 + line_control) line_8n1 high in
      let queued = outb (com1 + fifo_control) fifo_enable_and_clear framed in
      let looped = outb (com1 + modem_control) (bit_or modem_ready modem_loopback) queued in
      outb (com1 + data_register) probe looped

  -- The end of `init`, outside loopback: `received != Some(PROBE)`.
  abbrev pub accepted : Option ℕ → Com1 D → Result (Unit {0}) SerialError × Com1 D
  accepted none s = (err loopback_failed, s)
  accepted (some value) s =
      if value == probe then (ok tt, record s { ready = true }) else (err loopback_failed, s)

  unfoldable pub init : Com1 D → Result (Unit {0}) SerialError × Com1 D
  init s =
      let (value, probed) = received spin_limit (set_up s) in
      accepted value (outb (com1 + modem_control) modem_ready probed)

  -- The loop of `write_byte`.
  unfoldable pub wait : ℕ → Com1 D → Com1 D
  wait zero s = s
  wait (suc polls) s =
      let (status, polled) = inb (com1 + line_status) s in
      elim (bit_and status status_transmit_empty != 0) [ true ↦ polled | false ↦ wait polls polled ]

  unfoldable pub write_byte : ℕ → Com1 D → Com1 D
  write_byte byte s = if s.ready then outb (com1 + data_register) byte (wait spin_limit s) else s

  -- `text` is the bytes of the string; 10 is `\n`, 13 is `\r`.
  unfoldable pub write_str : List ℕ → Com1 D → Com1 D
  write_str [] s = s
  write_str (byte ∷ text) s =
      write_str text (write_byte byte (if byte == 10 then write_byte 13 s else s))
