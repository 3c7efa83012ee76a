-- ===== src/Libc.antt =====
-- The C library of the kernel, libc.
pub mod Str
pub mod CeilPowTwo
pub mod Itoa
pub mod Format
mod Examples
