-- ===== src/Modules.antt =====
-- modules/mod.rs: which modules are published, and the operations that change that.
pub mod Registry
pub mod Refresh
pub mod MacOs
pub mod Images
pub mod Jit
pub mod Elf
pub mod Pe
pub mod MachO
pub mod Batch
pub mod Idle
pub mod Entry
pub mod Settled
pub mod EhFrames
pub mod Published
pub mod Counts
pub mod Rescan
pub mod Loaded
pub mod Scanning
mod Tests
