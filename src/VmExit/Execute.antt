-- ===== src/VmExit/Execute.antt =====
-- `execute` of src/vmx/vmexit/handler.rs: an instruction carried out for the guest.
use aleph0_virtualization_hy.Base.{ℕ, ◌∷◌, bit_and, ◌==◌, u8, u16, u32, shr, if◌then◌else◌}
use aleph0_virtualization_hy.ExitDecision.Types.{IoSize, byte, word, dword, Emulation}
use aleph0_virtualization_hy.ExitDecision.Emulation.{CpuidResult, cpuid_policy, merge_in}
use aleph0_virtualization_hy.VmExit.Machine.{Machine, Devices}

-- What an emulated instruction did.
pub data EmulationOutcome : Type 0 where
  -- leaf, subleaf, raw, guest
  cpuid : ℕ → ℕ → CpuidResult → CpuidResult → EmulationOutcome
  -- msr, value
  rdmsr : ℕ → ℕ → EmulationOutcome
  wrmsr : ℕ → ℕ → EmulationOutcome
  -- port, size, value
  io_in : ℕ → IoSize → ℕ → EmulationOutcome
  io_out : ℕ → IoSize → ℕ → EmulationOutcome

-- The casts on what `inb`, `inw` and `inl` read, and on what `outb`, `outw` and `outl` send.
abbrev pub cut_to : IoSize → ℕ → ℕ
cut_to byte value = u8 value
cut_to word value = u16 value
cut_to dword value = u32 value

unfoldable pub execute : Devices → Emulation → Machine → EmulationOutcome × Machine
execute devices (Emulation.cpuid leaf subleaf) m =
    let raw = devices.cpuid_count leaf subleaf in
    let guest = cpuid_policy leaf raw in
    (
      cpuid leaf subleaf raw guest,
      record m {
        frame = record m.frame {
          rax = guest.eax;
          rbx = guest.ebx;
          rcx = guest.ecx;
          rdx = guest.edx;
        };
      },
    )
execute devices (Emulation.rdmsr msr) m =
    let value = m.msrs msr in
    (
      rdmsr msr value,
      record m { frame = record m.frame { rax = bit_and value 0xFFFF_FFFF; rdx = shr value 32 } },
    )
execute devices (Emulation.wrmsr msr value) m =
    (wrmsr msr value, record m { msrs = λ other. if other == msr then value else m.msrs other })
execute devices (Emulation.io_in port size) m =
    let value = cut_to size (devices.port_in m.outputs port size) in
    (
      io_in port size value,
      record m { frame = record m.frame { rax = merge_in m.frame.rax size value } },
    )
execute devices (Emulation.io_out port size value) m =
    (io_out port size value, record m { outputs = (port, size, cut_to size value) ∷ m.outputs })
