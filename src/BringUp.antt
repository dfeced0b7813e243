-- ===== src/BringUp.antt =====
-- src/bring_up: the sequence that starts the guest and hands the CPU back.
pub mod Error
pub mod Step
pub mod Machine
pub mod Allocation
pub mod Tables
pub mod Teardown
pub mod Sequence
pub mod Keeps
pub mod Entered
pub mod HandedBack
pub mod Restored
pub mod Finished
pub mod Prepare
pub mod Writes
pub mod Prepared
