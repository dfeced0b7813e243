-- ===== src/Examples/Sending.antt =====
-- A UART that is always ready, and whose receiver holds the byte that was written last.
use aleph0_virtualization_hy.Base.{
  ℕ, ◌+◌, ◌*◌, ◌≤◌, ◌≡◌, refl, true, false, List, [], ◌∷◌, ◌==◌, length, if◌then◌else◌, ok,
}
use aleph0_virtualization_hy.Serial
use aleph0_virtualization_hy.Serial.{
  Uart, Com1, com1, data_register, line_status, spin_limit, init, write_str,
}
use aleph0_virtualization_hy.Serial.Chip.{Chip, chip, expand, configured}
use aleph0_virtualization_hy.Serial.Wire.{init-configured, sending, write_str-init}
use aleph0_virtualization_hy.Serial.Polled.{
  AreAwaited, nothing_yet, settles, write_str-AreAwaited, write_str-bounded,
}
use aleph0_virtualization_hy.Serial.Probe.{IsProbed, init-IsProbed}

abbrev uart : Uart ℕ
uart = record {
  input = λ port held. (if port == com1 + line_status then 0x21 else held, held);
  output = λ port value held. if port == com1 + data_register then value else held;
}

abbrev found : Com1 ℕ
found = record { device = 0; ready = false; log = [] }

-- As the firmware left it: 9600 baud, 7 data bits.
abbrev firmware_chip : Chip
firmware_chip = record {
  interrupts = 1;
  divisor_low = 12;
  divisor_high = 0;
  fifo = 0;
  line = 2;
  modem = 0;
  sent = 0x3E ∷ [];
}

-- `A\n`.
abbrev text : List ℕ
text = 0x41 ∷ 10 ∷ []

succeeds : (init uart found).0 ≡ ok tt
unfolding init Serial.received
succeeds = refl

abbrev opened : Com1 ℕ
opened = (init uart found).1

write_str-init_example :
    chip firmware_chip (write_str uart text opened).log
    ≡ sending uart firmware_chip (chip firmware_chip []) (expand text)
write_str-init_example = write_str-init uart firmware_chip found text succeeds

init-configured_example : chip firmware_chip opened.log ≡ configured 0xB (chip firmware_chip [])
init-configured_example = init-configured uart firmware_chip found

init-IsProbed_example : IsProbed uart found (init uart found)
init-IsProbed_example = init-IsProbed uart found

always_settles : (device : ℕ) → settles uart spin_limit device ≡ true
unfolding settles
always_settles device = refl

write_str-AreAwaited_example : AreAwaited opened.log (write_str uart text opened).log
write_str-AreAwaited_example =
    write_str-AreAwaited uart always_settles text opened opened.log nothing_yet

write_str-bounded_example :
    length (write_str uart text opened).log
    ≤ length opened.log + (spin_limit + 1) * length (expand text)
write_str-bounded_example = write_str-bounded uart text opened
