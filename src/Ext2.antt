-- ===== src/Ext2.antt =====
-- The ext2 file system of kernel/src/ext2fs: the allocation of blocks (block.c), the block map of an
-- inode and what is read through it (inode.c).
mod Blocks
mod Map
mod Io
mod Output
pub mod Lookup
pub mod Contents
pub mod Written
pub mod Rewrite
pub mod RoundTrip
pub mod Holds
pub mod Alloc
pub mod Used
pub mod Triply
mod Tests
unfoldable pub use Blocks.*
unfoldable pub use Map.*
unfoldable pub use Io.*
unfoldable pub use Output.*
