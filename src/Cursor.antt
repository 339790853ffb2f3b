-- ===== src/Cursor.antt =====
-- cursor.rs: the cursor that walks a stack.
pub mod Window
pub mod Mask
pub mod Acquire
pub mod Refines
pub mod Init
pub mod Walk
mod Tests
