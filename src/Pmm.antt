-- ===== src/Pmm.antt =====
-- The physical memory manager, lumos/arch/i386/pmm.c and lumos/include/lumos/pmm.h. The zone
-- structures and their bitmaps lie in one memory of 32-bit words, at byte addresses.
pub mod Bitmap
pub mod Zone
pub mod Alloc
pub mod Init
pub mod Print
pub mod Logged
pub mod Session
mod Examples
