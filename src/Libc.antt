-- ===== src/Libc.antt =====
-- The kernel's C library (libc/).
pub mod Memory
pub mod Block
pub mod Search
pub mod Strings
pub mod Stdio
pub mod Heap
mod Tests
