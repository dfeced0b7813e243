-- ===== src/Examples/HostSide.antt =====
-- One host: its segments, its control registers, and the guest state made of them.
use aleph0_virtualization_hy.Base.{
  ℕ, ◌+◌, ◌-◌, ◌*◌, ◌^◌, ◌≡◌, ◌⊎◌, refl, ◌++◌, ltb, ◌==◌, none, some, u8, to_le_bytes, shr,
  if◌then◌else◌, ok, err,
}
use aleph0_virtualization_hy.Vmcs.Manual.{HoldsHost, HoldsGuest}
use aleph0_virtualization_hy.Instruction.{VmxFail, check_rflags}
use aleph0_virtualization_hy.Msr.{
  ia32_feature_control, ia32_vmx_basic, ia32_vmx_cr0_fixed0, ia32_vmx_cr4_fixed0,
}
use aleph0_virtualization_hy.Segment
use aleph0_virtualization_hy.Segment.{DescriptorTable, Host}
use aleph0_virtualization_hy.Vmcs.Access.{Vmcs, vmread, vmwrite, write_verified, write_all}
use aleph0_virtualization_hy.Vmcs.HostState.{is_refused, configure_host_state}
use aleph0_virtualization_hy.Vmcs.HostChecked.{AreEnterable, configure_host_state-Holds}
use aleph0_virtualization_hy.GuestState.{GuestState, unusable, state_writes, write}
use aleph0_virtualization_hy.GuestState.Stored.{StopsAt, write-Holds}
use aleph0_virtualization_hy.VmxOperation.{
  Processor, Firmware, VmxOperation, enable_vmxe, allocate, apply_fixed_bits,
  enter_vmx_root_operation, leave,
}
use aleph0_virtualization_hy.VmxOperation.Bracket.{
  Entered, enter_vmx_root_operation-Entered, leave-enter_vmx_root_operation,
}
use aleph0_virtualization_hy.Examples.Handling.{devices}

-- 64-bit code at 0x1008, and a busy TSS with base 0x5000 at 0x1010.
abbrev host_memory : ℕ → ℕ
host_memory address =
    if ltb address 0x1008
    then 0
    else if ltb address 0x1010
    then u8 (shr 0x00AF_9A00_0000_FFFF (8 * (address - 0x1008)))
    else if ltb address 0x1018
    then u8 (shr 0x0000_8B00_5000_0067 (8 * (address - 0x1010)))
    else 0

abbrev fixed : ℕ → ℕ
fixed msr =
    if msr == ia32_vmx_cr0_fixed0
    then 0x8000_0021
    else if msr == ia32_vmx_cr4_fixed0
    then 0x2000
    else if msr == ia32_feature_control
    then 5
    else if msr == ia32_vmx_basic
    then 0x400_0000_0000 * 4 + 1
    else 2 ^ 32 - 1

abbrev pub host : Host
host = record {
  sgdt = to_le_bytes 2 0x3F ++ to_le_bytes 8 0x1000;
  sidt = to_le_bytes 2 0xFFF ++ to_le_bytes 8 0x2000;
  cs = 8;
  ss = 0;
  ds = 0;
  es = 0;
  fs = 0;
  gs = 0;
  tr = 16;
  rdmsr = fixed;
  cr0 = 0x8001_0033;
  cr3 = 0x3000;
  cr4 = 0x668;
  memory = host_memory;
}

abbrev gdt : DescriptorTable
gdt = record { base = 0x1000; limit = 0x3F }

abbrev idt : DescriptorTable
idt = record { base = 0x9000; limit = 47 }

abbrev no_fields : Vmcs
no_fields field = 0

abbrev captured : GuestState
captured = record {
  rip = 0x7000;
  rsp = 0x8000;
  rflags = 2;
  cr0 = 0x8001_0033;
  cr3 = 0x3000;
  cr4 = 0x668;
  es = unusable 0 0;
  cs = record { selector = 8; base = 0; limit = 0xFFFF_FFFF; access_rights = 0xA09B };
  ss = unusable 0 0;
  ds = unusable 0 0;
  fs = unusable 0 (2 ^ 32 - 1);
  gs = unusable 0 (2 ^ 32 - 1);
  ldtr = unusable 0 0;
  tr = record { selector = 16; base = 0x5000; limit = 0x67; access_rights = 0x8B };
  gdtr = gdt;
  idtr = idt;
  sysenter_cs = 2 ^ 32 - 1;
  sysenter_esp = 2 ^ 32 - 1;
  sysenter_eip = 2 ^ 32 - 1;
  pat = none;
  efer = none;
}

write-Holds_example :
    (((write devices.cpu captured no_fields).0 ≡ ok tt)
      × HoldsGuest (write devices.cpu captured no_fields).1 captured)
    ⊎ StopsAt devices.cpu (state_writes captured) no_fields (write devices.cpu captured no_fields)
write-Holds_example = write-Holds devices.cpu captured no_fields

abbrev host_set : Vmcs
host_set = (configure_host_state devices.cpu host no_fields).1

sets_host : configure_host_state devices.cpu host no_fields ≡ (ok tt, host_set)
unfolding configure_host_state is_refused Segment.read_all Segment.from_operand
    Segment.descriptor_offset Segment.segment_base_from_gdt Segment.system_descriptor_base
    Segment.base vmread vmwrite write_verified write_all check_rflags
sets_host = refl

configure_host_state-Holds_example :
    AreEnterable (Segment.read_all host) × HoldsHost host_set host (no_fields 0x400C)
configure_host_state-Holds_example =
    configure_host_state-Holds devices.cpu host no_fields host_set sets_host

abbrev firmware : Firmware
firmware = record { rdmsr = fixed; page = some 0x6000; vmxon = λ region p. 2; vmxoff = λ p. 2 }

abbrev outside : Processor
outside = record { cr0 = 0x8001_0013; cr4 = 0x668; memory = λ address. 0 }

enter_vmx_root_operation-Entered_example :
    Entered firmware outside (enter_vmx_root_operation firmware outside)
enter_vmx_root_operation-Entered_example =
    enter_vmx_root_operation-Entered firmware outside refl refl

abbrev operating : VmxOperation
operating = record {
  region = record { phys_addr = 0x6000 };
  original_cr0 = 0x8001_0013;
  original_cr4 = 0x668;
}

abbrev inside : Processor
inside = (enter_vmx_root_operation firmware outside).1

enters : enter_vmx_root_operation firmware outside ≡ (ok operating, inside)
unfolding enter_vmx_root_operation allocate apply_fixed_bits enable_vmxe check_rflags
enters = refl

leave-enter_vmx_root_operation_example :
    (((leave firmware operating inside).0 ≡ ok tt)
      × ((leave firmware operating inside).1.cr0 ≡ 0x8001_0013)
      × ((leave firmware operating inside).1.cr4 ≡ 0x668))
    ⊎ ((e : VmxFail) × (leave firmware operating inside ≡ (err e, inside)))
leave-enter_vmx_root_operation_example =
    leave-enter_vmx_root_operation firmware outside inside inside operating refl refl enters
