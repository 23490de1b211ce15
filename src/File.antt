-- ===== src/File.antt =====
-- Open files and file descriptors: kernel/src/file.c and the system calls on descriptors of
-- kernel/src/fs.c.
mod Types
mod Objects
mod Table
mod Calls
pub mod Balance
pub mod Holders
pub mod Reach
pub mod Boot
pub mod Rights
pub mod Flaws
pub mod Failure
pub mod Steady
pub mod Lifetime
pub mod Opening
pub mod Descriptors
mod Tests
unfoldable pub use Types.*
unfoldable pub use Objects.*
unfoldable pub use Table.*
unfoldable pub use Calls.*
