-- ===== src/Fs.antt =====
-- The filesystem, fs/filesystem.h and fs/filesystem.c.
pub mod State
pub mod Fat
pub mod Names
pub mod Dir
pub mod Files
pub mod Transfer
pub mod Listing
pub mod Manage
pub mod Volume
pub mod Paths
mod Tests
