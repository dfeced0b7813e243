-- ===== src/Examples/Configuring.antt =====
-- The set-up of the VMCS on one CPU.
use aleph0_virtualization_hy.Base.{ℕ, ◌-◌, ◌*◌, ◌^◌, ◌/◌, ◌%◌, ◌≡◌, ◌⊎◌, refl, bit_or, ok, err}
use aleph0_virtualization_hy.Instruction.{check_rflags}
use aleph0_virtualization_hy.Msr.Controls.{allows, choose, allowed, required}
use aleph0_virtualization_hy.Vmcs.{unsupported_control_value, nmi_window_exiting_unsupported}
use aleph0_virtualization_hy.Vmcs.Access.{Vmcs, vmread, vmwrite, write_verified, write_all}
use aleph0_virtualization_hy.Vmcs.Controls.{
  primary_request, minimal_64_bit_guest, VmcsControlMsrs, choose_controls, configure_controls,
}
use aleph0_virtualization_hy.Vmcs.Configured.{configure_controls_ok, wanted_primary}
use aleph0_virtualization_hy.Vmcs.Choosable.{HaveLegal, configure_controls_works}
use aleph0_virtualization_hy.Vmcs.Manual.{HoldsPlain}
use aleph0_virtualization_hy.Msr.Legal.{IsChosen}
use aleph0_virtualization_hy.Base.Bits.Lattice.{Includes}
use aleph0_virtualization_hy.Examples.Handling.{devices, devices-IsWorking}

-- Every control is allowed and none is required.
abbrev free : ℕ
free = (2 ^ 32 - 1) * 2 ^ 32

abbrev capabilities : VmcsControlMsrs
capabilities = record {
  basic = 0;
  pinbased = free;
  primary = free;
  exit = free;
  entry = free;
  secondary = free;
  ept_vpid_cap = 0;
}

abbrev fresh : Vmcs
fresh field = 0

abbrev configured : Vmcs
configured = (configure_controls devices.cpu capabilities minimal_64_bit_guest fresh).1

configures :
    configure_controls devices.cpu capabilities minimal_64_bit_guest fresh ≡ (ok tt, configured)
unfolding configure_controls choose_controls primary_request allows choose allowed required
    write_all write_verified vmread vmwrite check_rflags
configures = refl

configure_controls_ok_example :
    IsChosen free minimal_64_bit_guest.pin (configured 0x4000)
    × IsChosen free (wanted_primary minimal_64_bit_guest) (configured 0x4002)
    × IsChosen free (bit_or minimal_64_bit_guest.exit (2 ^ 9)) (configured 0x400C)
    × IsChosen free minimal_64_bit_guest.entry (configured 0x4012)
    × ((minimal_64_bit_guest.secondary ≡ 0)
        ⊎ IsChosen free minimal_64_bit_guest.secondary (configured 0x401E))
    × Includes (free / 2 ^ 32 % 2 ^ 32) (2 ^ 22)
    × HoldsPlain configured
configure_controls_ok_example =
    configure_controls_ok devices.cpu capabilities minimal_64_bit_guest fresh configured configures

configure_controls_works_example :
    (((configure_controls devices.cpu capabilities minimal_64_bit_guest fresh).0 ≡ ok tt)
      × HaveLegal capabilities minimal_64_bit_guest)
    ⊎ ((configure_controls devices.cpu capabilities minimal_64_bit_guest fresh
          ≡ (err unsupported_control_value, fresh))
        × (¬ HaveLegal capabilities minimal_64_bit_guest))
    ⊎ ((configure_controls devices.cpu capabilities minimal_64_bit_guest fresh
          ≡ (err nmi_window_exiting_unsupported, fresh))
        × (capabilities.primary / 2 ^ 54 % 2 ≡ 0))
configure_controls_works_example =
    configure_controls_works devices.cpu capabilities minimal_64_bit_guest fresh devices-IsWorking
