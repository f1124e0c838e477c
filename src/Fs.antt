-- ===== src/Fs.antt =====
-- fs.c: blocks, inodes, directories and path names.
pub mod Layout
pub mod Bitmap
pub mod BitLaws
pub mod Blocks
pub mod Inode
pub mod Cache
pub mod Keys
pub mod Dinode
pub mod Content
pub mod Path
pub mod Refs
pub mod Names
pub mod Lookups
pub mod Walks
pub mod Resolve
pub mod Calls
pub mod Chdir
mod Tests
