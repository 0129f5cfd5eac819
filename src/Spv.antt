-- ===== src/Spv.antt =====
-- Package spv: the synchronization of the wallets with peers over the Decred wire protocol
-- (spv/sync.go, spv/rescan.go, spv/backend.go). This file has the data of the protocol, by the
-- fields that the code reads. A hash is the number that its 32 bytes are.
pub mod Rescan
pub mod Matches
pub mod Filters
pub mod Scan
pub mod Startup
pub mod Kept
pub mod Notified
pub mod Terminates
pub mod Fetch
pub mod Loaded
pub mod Found
pub mod Backend
pub mod Rescanned
pub mod Tries
pub mod Saved
pub mod TxInvs
pub mod GetData
pub mod Replies
pub mod Panics
pub mod Requests
pub mod Peers
pub mod Headers
pub mod Announced
pub mod Switches
pub mod Counted
pub mod Full
pub mod Complete
mod Tests
mod SyncTests
mod BackendTests
use btclibwallet.Prelude.{ℕ, Bool, List, ◌==◌, ◌&&◌, ◌≡◌, true, arith}
use btclibwallet.Prelude.Bytes.{Bytes}

abbrev pub Hash : Type 0
Hash = ℕ

pub record OutPoint : Type 0 where
  pub hash : Hash
  pub index : ℕ
  pub tree : ℕ

pub record TxOut : Type 0 where
  pub version : ℕ
  pub pk_script : Bytes

-- wire.MsgTx, its inputs by the outpoints that they spend.
pub record Tx : Type 0 where
  pub hash : Hash
  pub tx_in : List OutPoint
  pub tx_out : List TxOut

pub record Block : Type 0 where
  pub hash : Hash
  pub transactions : List Tx
  pub s_transactions : List Tx

abbrev pub tree_regular : ℕ
tree_regular = 0

abbrev pub tree_stake : ℕ
tree_stake = 1

unfoldable pub out_point_eq : OutPoint → OutPoint → Bool
out_point_eq a b = (a.hash == b.hash) && (a.index == b.index) && (a.tree == b.tree)

pub eq_of_out_point_eq : (a b : OutPoint) → out_point_eq a b ≡ true → a ≡ b
unfolding out_point_eq
eq_of_out_point_eq a b h = ground (arith, h)

pub out_point_eq_refl : (a : OutPoint) → out_point_eq a a ≡ true
unfolding out_point_eq
out_point_eq_refl a = ground arith
