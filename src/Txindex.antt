-- ===== src/Txindex.antt =====
-- Package txindex: the index of the wallet's transactions (txindex/*.go), and the loop of
-- `IndexTransactions` over it (txindex.go). Storm, the database, is a parameter (Txindex/Store).
pub mod Store
pub mod Filter
pub mod Save
pub mod Index
pub mod Complete
mod Tests
