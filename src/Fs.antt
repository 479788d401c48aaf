-- ===== src/Fs.antt =====
-- The in-memory file system of src/fs/fs.c and src/fs/fs.h, the backend that is built unless
-- FS_BACKEND is `disk`.
pub mod Defs
pub mod Ops
pub mod Path
pub mod Data
pub mod Tree
pub mod Link
pub mod Create
pub mod Names
pub mod Unlink
pub mod Contents
pub mod Write
pub mod Lookup
pub mod Start
pub mod Same
pub mod Clone
pub mod Reach
pub mod Disk
mod Tests
