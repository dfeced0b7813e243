-- ===== src/Examples.antt =====
-- Concrete runs of the models of src/vmx, each at an input where a theorem's conditions hold.
pub mod Exits
pub mod Runs
pub mod Bitmaps
pub mod Mapping
pub mod Stop
pub mod Handling
pub mod Configuring
pub mod HostSide
pub mod Tables
pub mod Booting
pub mod Preparing
pub mod Sending
pub mod GuestPages
pub mod Walking
