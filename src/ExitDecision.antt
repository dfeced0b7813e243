-- ===== src/ExitDecision.antt =====
-- src/vmx/exit_decision/: what the VM-exit handler does with each exit, as a pure function.
pub mod Types
pub mod InterruptionInfo
pub mod Emulation
pub mod Scenario
pub mod Decide
pub mod Registers
pub mod Outcomes
pub mod MsrExits
pub mod Safety
pub mod Events
pub mod Session
pub mod NmiTransparency
pub mod Finish
