-- ===== src/Msr.antt =====
-- src/vmx/msr.rs: the addresses of the model-specific registers, and the capability words that say
-- which control bits the CPU requires and allows. RDMSR is a parameter where it is used.
pub mod Controls
pub mod Legal
use aleph0_virtualization_hy.Base.{
  ℕ, ◌^◌, ◌/◌, ◌+◌, Bool, true, false, not, ◌&&◌, ◌||◌, bit_and, bit_or, ◌==◌, ◌!=◌, u32, shr,
  if◌then◌else◌, Result, ok, err,
}

abbrev pub ia32_feature_control : ℕ
ia32_feature_control = 0x3A

abbrev pub lock_bit : ℕ
lock_bit = 2 ^ 0

abbrev pub vmx_outside_smx_bit : ℕ
vmx_outside_smx_bit = 2 ^ 2

abbrev pub ia32_sysenter_cs : ℕ
ia32_sysenter_cs = 0x174

abbrev pub ia32_sysenter_esp : ℕ
ia32_sysenter_esp = 0x175

abbrev pub ia32_sysenter_eip : ℕ
ia32_sysenter_eip = 0x176

abbrev pub ia32_pat : ℕ
ia32_pat = 0x277

abbrev pub ia32_efer : ℕ
ia32_efer = 0xC000_0080

abbrev pub ia32_fs_base : ℕ
ia32_fs_base = 0xC000_0100

abbrev pub ia32_gs_base : ℕ
ia32_gs_base = 0xC000_0101

abbrev pub ia32_kernel_gs_base : ℕ
ia32_kernel_gs_base = 0xC000_0102

abbrev pub ia32_debugctl : ℕ
ia32_debugctl = 0x1D9

abbrev pub ia32_perf_global_ctrl : ℕ
ia32_perf_global_ctrl = 0x38F

abbrev pub ia32_bndcfgs : ℕ
ia32_bndcfgs = 0xD90

abbrev pub efer_nxe : ℕ
efer_nxe = 2 ^ 11

abbrev pub ia32_vmx_basic : ℕ
ia32_vmx_basic = 0x480

abbrev pub vmx_basic_true_controls : ℕ
vmx_basic_true_controls = 2 ^ 55

abbrev pub ia32_vmx_pinbased_ctls : ℕ
ia32_vmx_pinbased_ctls = 0x481

abbrev pub ia32_vmx_procbased_ctls : ℕ
ia32_vmx_procbased_ctls = 0x482

abbrev pub ia32_vmx_exit_ctls : ℕ
ia32_vmx_exit_ctls = 0x483

abbrev pub ia32_vmx_entry_ctls : ℕ
ia32_vmx_entry_ctls = 0x484

abbrev pub ia32_vmx_true_pinbased_ctls : ℕ
ia32_vmx_true_pinbased_ctls = 0x48D

abbrev pub ia32_vmx_true_procbased_ctls : ℕ
ia32_vmx_true_procbased_ctls = 0x48E

abbrev pub ia32_vmx_true_exit_ctls : ℕ
ia32_vmx_true_exit_ctls = 0x48F

abbrev pub ia32_vmx_true_entry_ctls : ℕ
ia32_vmx_true_entry_ctls = 0x490

abbrev pub ia32_vmx_procbased_ctls2 : ℕ
ia32_vmx_procbased_ctls2 = 0x48B

abbrev pub ia32_vmx_ept_vpid_cap : ℕ
ia32_vmx_ept_vpid_cap = 0x48C

abbrev pub ia32_vmx_cr0_fixed0 : ℕ
ia32_vmx_cr0_fixed0 = 0x486

abbrev pub ia32_vmx_cr0_fixed1 : ℕ
ia32_vmx_cr0_fixed1 = 0x487

abbrev pub ia32_vmx_cr4_fixed0 : ℕ
ia32_vmx_cr4_fixed0 = 0x488

abbrev pub ia32_vmx_cr4_fixed1 : ℕ
ia32_vmx_cr4_fixed1 = 0x489
