-- ===== src/Memory.antt =====
-- memory.c: copying, the list of free pages, and the page tables.
mod Tests
pub mod Copy
pub mod Pages
pub mod Mapping
pub mod FreePages
pub mod Elf
pub mod Entry
pub mod Bitmap
