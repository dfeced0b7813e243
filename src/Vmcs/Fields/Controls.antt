-- ===== src/Vmcs/Fields/Controls.antt =====
-- src/vmx/vmcs/fields.rs: the controls of execution, entry and exit, and their bits.
use aleph0_virtualization_hy.Base.{ℕ, ◌^◌}

abbrev pub pin_based_vm_exec_control : ℕ
pin_based_vm_exec_control = 0x4000

abbrev pub primary_vm_exec_control : ℕ
primary_vm_exec_control = 0x4002

abbrev pub pin_based_nmi_exiting : ℕ
pin_based_nmi_exiting = 2 ^ 3

abbrev pub pin_based_virtual_nmis : ℕ
pin_based_virtual_nmis = 2 ^ 5

abbrev pub cpu_based_nmi_window_exiting : ℕ
cpu_based_nmi_window_exiting = 2 ^ 22

abbrev pub cpu_based_use_io_bitmaps : ℕ
cpu_based_use_io_bitmaps = 2 ^ 25

abbrev pub cpu_based_use_msr_bitmaps : ℕ
cpu_based_use_msr_bitmaps = 2 ^ 28

abbrev pub cpu_based_activate_secondary_controls : ℕ
cpu_based_activate_secondary_controls = 2 ^ 31

abbrev pub secondary_enable_vpid : ℕ
secondary_enable_vpid = 2 ^ 5

abbrev pub exception_bitmap : ℕ
exception_bitmap = 0x4004

abbrev pub page_fault_error_code_mask : ℕ
page_fault_error_code_mask = 0x4006

abbrev pub page_fault_error_code_match : ℕ
page_fault_error_code_match = 0x4008

abbrev pub cr3_target_count : ℕ
cr3_target_count = 0x400A

abbrev pub vm_exit_controls : ℕ
vm_exit_controls = 0x400C

abbrev pub vm_exit_msr_store_count : ℕ
vm_exit_msr_store_count = 0x400E

abbrev pub vm_exit_msr_load_count : ℕ
vm_exit_msr_load_count = 0x4010

abbrev pub vm_entry_controls : ℕ
vm_entry_controls = 0x4012

abbrev pub vm_entry_msr_load_count : ℕ
vm_entry_msr_load_count = 0x4014

abbrev pub vm_entry_interruption_info : ℕ
vm_entry_interruption_info = 0x4016

abbrev pub vm_entry_exception_error_code : ℕ
vm_entry_exception_error_code = 0x4018

abbrev pub secondary_vm_exec_control : ℕ
secondary_vm_exec_control = 0x401E

abbrev pub io_bitmap_a : ℕ
io_bitmap_a = 0x2000

abbrev pub io_bitmap_b : ℕ
io_bitmap_b = 0x2002

abbrev pub msr_bitmap : ℕ
msr_bitmap = 0x2004

abbrev pub ept_pointer : ℕ
ept_pointer = 0x201A

abbrev pub vm_exit_host_address_space_size : ℕ
vm_exit_host_address_space_size = 2 ^ 9

abbrev pub vm_exit_load_ia32_pat : ℕ
vm_exit_load_ia32_pat = 2 ^ 19

abbrev pub vm_exit_load_ia32_efer : ℕ
vm_exit_load_ia32_efer = 2 ^ 21

abbrev pub vm_entry_ia32e_mode_guest : ℕ
vm_entry_ia32e_mode_guest = 2 ^ 9

abbrev pub vm_entry_load_ia32_pat : ℕ
vm_entry_load_ia32_pat = 2 ^ 14

abbrev pub vm_entry_load_ia32_efer : ℕ
vm_entry_load_ia32_efer = 2 ^ 15
