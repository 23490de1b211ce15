-- ===== src/Block.antt =====
-- Block devices of kernel/src/block.c: the table of drivers, and byte-wise input and output over
-- whole blocks. A driver's operations (struct block_operations) are supplied by other code: they
-- are values of the record `Ops`.
mod Io
mod Devices
pub mod Disk
pub mod Read
pub mod Write
pub mod RoundTrip
pub mod Registry
mod Tests
unfoldable pub use Io.*
unfoldable pub use Devices.*
