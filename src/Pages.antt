-- ===== src/Pages.antt =====
-- Physical pages and page tables: kernel/mem.c.
pub mod Bitmap
pub mod Search
pub mod Tables
pub mod Alloc
pub mod Space
pub mod Sample
mod Tests
