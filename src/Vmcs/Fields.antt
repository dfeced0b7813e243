-- ===== src/Vmcs/Fields.antt =====
-- src/vmx/vmcs/fields.rs: the encodings of the VMCS fields, and the bits of the controls.
pub mod Controls
pub mod Exits
pub mod Guest
pub mod Host
