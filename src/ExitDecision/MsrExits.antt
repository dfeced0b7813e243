-- ===== src/ExitDecision/MsrExits.antt =====
-- The MSR exits that the bitmaps of src/vmx/exit_bitmaps.rs cause, as
-- src/vmx/exit_decision/emulation.rs judges them.
