-- ===== src/Lib.antt =====
-- A model of dcrlibwallet, a Go library of Decred wallets (the module's root package, with
-- badgerdb, txhelper, txindex and others below it), with theorems on its parts.
--
-- The parts and their files:
--   * Errors: errors.go, the error codes and `translateError`. An error of dcrwallet is a kind with
--     a text.
--   * Types: the types of types.go that the modelled parts use.
--   * Txhelper: txhelper/helper.go, the amount and direction of a transaction from its totals.
--   * Decode: decodetx.go (`DecodeTransaction`), and txparser.go in Decode/Summary
--     (`decodeTransactionWithTxSummary`), which calls it. The Decred libraries that read a raw
--     transaction are the parameter `Chain`, the wallet of dcrwallet is `WalletReader`.
--   * Txindex: txindex/filter.go, txindex/read.go and txindex/save.go (Txindex/Filter,
--     Txindex/Save), and txindex.go (Txindex/Index), the run that decodes the blocks' transactions
--     and stores them. storm is the parameter `TxStore`, the laws asked of it are `IsTxStore`.
--   * Badgerdb: badgerdb/bucket.go (Badgerdb/Bucket, Badgerdb/Keys) and badgerdb/db.go
--     (Badgerdb/Transaction, and the cursor in Badgerdb/Cursor), walletdb's buckets in one flat table of badger. badger is the
--     parameter `Badger`, its laws are `IsBadger`, and Badgerdb/Table has an instance of them.
--   * Txauthor: txauthor.go, the destinations of an unsigned transaction, `constructTransaction`
--     and, in Txauthor/Broadcast, the estimates and `Broadcast`. dcrwallet is the parameters
--     `Author` and `Network`.
--   * Loader: internal/loader/loader.go, opening, creating and unloading a wallet. The file system,
--     the database and dcrwallet are the parameter `Host`. The mutex is left out: an operation is
--     one step, while the code frees the mutex as `OpenExistingWallet` opens the database.
--   * Sync: sync.go and the end of syncnotification.go, the flags of the synchronization over all
--     wallets, its listeners, and the best block. Each function is one step of `Sync.Consistent.Step`.
--   * Spv: package spv. spv/rescan.go is in Spv/Rescan; of spv/sync.go, `scanChain` is in Spv/Scan,
--     `startupSync` in Spv/Startup, `getHeaders` in Spv/Headers, `handleBlockAnnouncements` in
--     Spv/Announced, `handleTxInvs` in Spv/TxInvs, `getTransactionsByHashes` and the reply to a
--     getdata in Spv/GetData, the chain tips and the choice of peers in Spv/Peers; `LoadTxFilter` of
--     spv/backend.go is in Spv/Loaded and its `Rescan` in Spv/Backend. dcrwallet's rescan filter with dcrd's scripts is the parameter
--     `Watch`, the compact filters and the checks of blocks are `Blocks`; the answers of wallets and
--     peers are arguments. `Spv.Full.full_scan` is the scan that fetches every block, against which
--     `scanChain` is compared. Goroutines that only share out a loop are that loop, and a map is the
--     list of its elements in the order of its iteration.
--   * Wallets: multiwallet.go and wallet.go, the table of wallets: `saveNewWallet` in Wallets/Created,
--     with the batch of multiwallet_utils.go, and `ChangePrivatePassphraseForWallet` in
--     Wallets/Passphrase. storm, dcrwallet and the cryptography are the parameter `Vault`.
--   * Prelude: the names that the parts share, integers, byte strings and results.
--
-- How the code's constructs are modelled: an int64 or int32 is an integer that is wrapped after
-- each operation (`i64`, `i32`); a byte string is a list of numbers; a run-time panic is none;
-- a (value, error) pair is a `Result`. A store is passed from call to call.
--
-- Bounds: `decode_with_summary` has a depth, since the decoder of a vote decodes the ticket; two
-- levels are enough where the ticket's purchase spends no ticket. The filter loops of `scanChain`
-- and `Rescan` run on fuel, one more than the blocks, which is enough, as each round leaves fewer blocks.
-- The tries of `Rescan` for a peer, which the code repeats without a bound, are the list of those
-- that a run makes, and a run that comes to its end is still trying. Every other loop is structural.
--
-- Not modelled: files, sockets, goroutines and logs; the parts of the root package that are not named
-- above. A key that is handed to badger has its own bytes or may be overwritten (`Memory`); when it
-- is overwritten is not modelled, a write at such a key counts or does not from the start.
pub mod Prelude
pub mod Errors
pub mod Types
pub mod Wallets
pub mod Txhelper
pub mod Txindex
pub mod Decode
pub mod Badgerdb
pub mod Txauthor
pub mod Loader
pub mod Sync
pub mod Spv
