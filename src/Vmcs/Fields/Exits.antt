-- ===== src/Vmcs/Fields/Exits.antt =====
-- src/vmx/vmcs/fields.rs: what the CPU reports of an exit.
use aleph0_virtualization_hy.Base.{ℕ}

abbrev pub vm_instruction_error : ℕ
vm_instruction_error = 0x4400

abbrev pub vm_exit_reason : ℕ
vm_exit_reason = 0x4402

abbrev pub vm_exit_interruption_info : ℕ
vm_exit_interruption_info = 0x4404

abbrev pub idt_vectoring_info : ℕ
idt_vectoring_info = 0x4408

abbrev pub vm_exit_instruction_len : ℕ
vm_exit_instruction_len = 0x440C

abbrev pub exit_qualification : ℕ
exit_qualification = 0x6400

abbrev pub guest_physical_address : ℕ
guest_physical_address = 0x2400

abbrev pub guest_linear_address : ℕ
guest_linear_address = 0x640A
