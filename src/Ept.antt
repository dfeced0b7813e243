-- ===== src/Ept.antt =====
-- src/vmx/ept.rs: the second stage of address translation.
pub mod Entry
pub mod Support
pub mod Range
pub mod Tables
pub mod Fields
pub mod Walk
pub mod Fill
pub mod Filled
pub mod Identity
pub mod Reach
pub mod Capable
pub mod Publish
pub mod Build
pub mod Grant
