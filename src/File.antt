-- ===== src/File.antt =====
-- The file system of file.c, part by part.
pub mod Disk
pub mod Ide
pub mod ReadSeg
pub mod Layout
pub mod Inodes
pub mod Bitmap
pub mod Content
pub mod Table
pub mod Directory
pub mod Format
mod Tests
mod DriveTests
