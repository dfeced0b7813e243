-- ===== src/VmExit.antt =====
-- src/vmx/vmexit: what happens at a VM exit, between the entry stub's saving and restoring of the
-- guest's registers.
pub mod Stack
pub mod Machine
pub mod State
pub mod Execute
pub mod Reading
pub mod Resume
pub mod Handler
pub mod Stages
pub mod Unchanged
pub mod Effects
pub mod Confined
pub mod Handled
pub mod Runs
pub mod Finish
