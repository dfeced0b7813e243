-- ===== src/Guest.antt =====
-- src/vmx/guest.rs: the values that the test guest shows, and how often it causes each emulated
-- exit.
use aleph0_virtualization_hy.Base.{ℕ, ◌+◌}
use aleph0_virtualization_hy.ExitDecision.Types.{EmulationCounts}

abbrev pub guest_marker : ℕ
guest_marker = 0xA1E0

abbrev pub guest_nmi_marker : ℕ
guest_nmi_marker = 0x4E_4D49

abbrev pub guest_data_seed : ℕ
guest_data_seed = 0xDA7A

abbrev pub guest_ept_value : ℕ
guest_ept_value = 0x45_5054

-- src/serial.rs has the base port of COM1.
abbrev pub com1 : ℕ
com1 = 0x3F8

abbrev pub guest_scratch_port : ℕ
guest_scratch_port = com1 + 7

abbrev pub expected_emulation : EmulationCounts
expected_emulation = record { cpuid = 1; rdmsr = 2; wrmsr = 2; io_in = 2; io_out = 2 }
