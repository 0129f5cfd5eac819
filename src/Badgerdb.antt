-- ===== src/Badgerdb.antt =====
-- Package badgerdb: walletdb's buckets over badger, one flat table of keys (badgerdb/*.go).
pub mod Badger
pub mod Keys
pub mod Transaction
pub mod Bucket
pub mod Loops
pub mod Stamp
pub mod Steps
pub mod Access
pub mod Listing
pub mod Delete
pub mod Closed
mod Table
pub mod Cursor
pub mod Walk
mod Tests
mod CursorTests
