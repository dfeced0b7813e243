-- ===== src/Examples/Preparing.antt =====
-- The VMCS of one host, prepared: its TSS descriptor is at 0x1010, and every control is allowed.
use aleph0_virtualization_hy.Base.{
  ℕ, ◌-◌, ◌*◌, ◌++◌, ltb, leb, ◌&&◌, u8, shr, to_le_bytes, if◌then◌else◌,
}
use aleph0_virtualization_hy.BringUp.Prepare
use aleph0_virtualization_hy.BringUp.Prepare.{prepare_vmcs}
use aleph0_virtualization_hy.Ept.Publish.{Ept}
use aleph0_virtualization_hy.Examples.Booting.{msrs, env, memory}
use aleph0_virtualization_hy.ExitBitmaps.Region
use aleph0_virtualization_hy.ExitBitmaps.Region.{ExitBitmaps}
use aleph0_virtualization_hy.GuestMemory
use aleph0_virtualization_hy.GuestMemory.{GuestMemory}
use aleph0_virtualization_hy.GuestState
use aleph0_virtualization_hy.Instruction
use aleph0_virtualization_hy.Msr.Controls as MsrControls
use aleph0_virtualization_hy.Segment
use aleph0_virtualization_hy.Segment.{Host}
use aleph0_virtualization_hy.Vmcs.Access
use aleph0_virtualization_hy.Vmcs.Access.{Vmcs}
use aleph0_virtualization_hy.Vmcs.Controls
use aleph0_virtualization_hy.Vmcs.Controls.{VmcsControlMsrs, read_vmcs_control_msrs}
use aleph0_virtualization_hy.Vmcs.HostState
use aleph0_virtualization_hy.VmExit.Stack
use aleph0_virtualization_hy.VmExit.Stack.{VmExitStack}

abbrev with_tss : ℕ → ℕ
with_tss address =
    if leb 0x1010 address && ltb address 0x1018
    then u8 (shr 0x0000_8B01_0000_0067 (8 * (address - 0x1010)))
    else memory address

abbrev prepared_host : Host
prepared_host = record {
  sgdt = to_le_bytes 2 0x1F ++ to_le_bytes 8 0x1000;
  sidt = to_le_bytes 2 47 ++ to_le_bytes 8 0x2000;
  cs = 8;
  ss = 0;
  ds = 0;
  es = 0;
  fs = 0;
  gs = 0;
  tr = 0x10;
  rdmsr = msrs;
  cr0 = 0x8001_0033;
  cr3 = 0x3000;
  cr4 = 0x668;
  memory = with_tss;
}

abbrev prepared_guest : GuestMemory
prepared_guest = record { code = 0x1_6000; stack = 0x1_8000; idt = 0x1_9000 }

abbrev identity : Ept
identity = record { eptp = 0x100_001E; end = 0x4000_0000; table_pages = 3 }

abbrev exit_pages : ExitBitmaps
exit_pages = record { msr = 0x1_A000; io_a = 0x1_B000; io_b = 0x1_C000 }

abbrev exit_stack : VmExitStack
exit_stack = record { base = 0x1_2000 }

-- The capability MSRs of `msrs`.
abbrev controls : VmcsControlMsrs
controls = record {
  basic = 0x1000_0000_0001;
  pinbased = 0xFFFF_FFFF_0000_0000;
  primary = 0xFFFF_FFFF_0000_0000;
  exit = 0xFFFF_FFFF_0000_0000;
  entry = 0xFFFF_FFFF_0000_0000;
  secondary = 0xFFFF_FFFF_0000_0000;
  ept_vpid_cap = 0x0611_4040;
}

abbrev empty : Vmcs
empty field = 0

abbrev prepared : Vmcs
prepared =
    (prepare_vmcs env.cpu prepared_host 0x40_0000 controls exit_stack prepared_guest identity
      exit_pages empty).1
