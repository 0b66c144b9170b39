-- ===== src/Kernel.antt =====
-- The rwMem kernel module.
pub mod Maps
pub mod Breakpoint
pub mod Memory
pub mod Paging
pub mod Residency
pub mod Physical
pub mod Transfer
pub mod AddBp
pub mod Ioctl
pub mod Registration
pub mod Tests
