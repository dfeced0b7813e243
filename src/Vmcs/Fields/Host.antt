-- ===== src/Vmcs/Fields/Host.antt =====
-- src/vmx/vmcs/fields.rs: the host state.
use aleph0_virtualization_hy.Base.{ℕ}

abbrev pub host_es_selector : ℕ
host_es_selector = 0x0C00

abbrev pub host_cs_selector : ℕ
host_cs_selector = 0x0C02

abbrev pub host_ss_selector : ℕ
host_ss_selector = 0x0C04

abbrev pub host_ds_selector : ℕ
host_ds_selector = 0x0C06

abbrev pub host_fs_selector : ℕ
host_fs_selector = 0x0C08

abbrev pub host_gs_selector : ℕ
host_gs_selector = 0x0C0A

abbrev pub host_tr_selector : ℕ
host_tr_selector = 0x0C0C

abbrev pub host_ia32_pat : ℕ
host_ia32_pat = 0x2C00

abbrev pub host_ia32_efer : ℕ
host_ia32_efer = 0x2C02

abbrev pub host_ia32_sysenter_cs : ℕ
host_ia32_sysenter_cs = 0x4C00

abbrev pub host_cr0 : ℕ
host_cr0 = 0x6C00

abbrev pub host_cr3 : ℕ
host_cr3 = 0x6C02

abbrev pub host_cr4 : ℕ
host_cr4 = 0x6C04

abbrev pub host_fs_base : ℕ
host_fs_base = 0x6C06

abbrev pub host_gs_base : ℕ
host_gs_base = 0x6C08

abbrev pub host_tr_base : ℕ
host_tr_base = 0x6C0A

abbrev pub host_gdtr_base : ℕ
host_gdtr_base = 0x6C0C

abbrev pub host_idtr_base : ℕ
host_idtr_base = 0x6C0E

abbrev pub host_ia32_sysenter_esp : ℕ
host_ia32_sysenter_esp = 0x6C10

abbrev pub host_ia32_sysenter_eip : ℕ
host_ia32_sysenter_eip = 0x6C12

abbrev pub host_rsp : ℕ
host_rsp = 0x6C14

abbrev pub host_rip : ℕ
host_rip = 0x6C16
