-- ===== src/Txindex/Index.antt =====
-- txindex.go: `IndexTransactions` and `reindexTransactions`. dcrwallet's GetTransactions calls the
-- range function on each block in order, until it returns true or an error: the blocks are a list,
-- each with whether the context is done when its turn ends. `decode` stands for
-- `decodeTransactionWithTxSummary` (Decode/Summary); nothing is asked of it.
use btclibwallet.Prelude.{
  ℕ, ◌+◌, String, Bool, true, false, Option, none, some, List, [], ◌∷◌, Result, ok, err,
  if◌then◌else◌,
}
use btclibwallet.Prelude.Int.{ℤ, pos, i32}
use btclibwallet.Errors.{Error}
use btclibwallet.Types.{Transaction}
use btclibwallet.Txindex.Store.{TxStore, StormError}
use btclibwallet.Txindex.Save.{
  save_or_update, save_last_index_point, read_indexing_start_block, clear_saved_transactions,
}

pub record Header : Type 0 where
  pub block_hash : String
  pub height : ℕ

pub data IndexError : Type 0 where
  not_decoded : Error → IndexError
  not_stored : StormError → IndexError
  context_done : IndexError

-- A block of transactions; the unmined ones come in a block with no header.
pub record Block (Summary : Type 0) : Type 0 where
  pub transactions : List Summary
  pub header : Option Header

pub record Progress (Db : Type 0) : Type 0 where
  pub db : Db
  pub total_index : ℕ
  pub tx_end_height : ℕ

abbrev pub block_hash : Option Header → Option String
block_hash none = none
block_hash (some h) = some h.block_hash

module _ (S : TxStore) (Summary : Type 0)
    (decode : Summary → Option String → Result Error Transaction) (empty : Transaction) where
  open S use {Db, get_end_block}

  -- The loop over a block's transactions, which an error leaves.
  unfoldable pub index_txs :
      Option String → List Summary → Progress Db → Progress Db × Option IndexError
  index_txs hash [] p = (p, none)
  index_txs hash (s ∷ rest) p = elim (decode s hash) [
    | err e ↦ (p, some (not_decoded e))
    | ok tx ↦
        let (overwritten, e, db') = save_or_update S p.db empty tx in
        elim e [
          | some x ↦ (record p { db = db' }, some (not_stored x))
          | none ↦ index_txs hash rest (record p { db = db'; total_index = p.total_index + 1 })
        ]
  ]

  -- The end of a block: the height is stored if the block has a header, then the context is asked.
  unfoldable pub finish_block :
      Option Header → Bool → Progress Db → Progress Db × Bool × Option IndexError
  finish_block none done p = if done then (p, true, some context_done) else (p, false, none)
  finish_block (some h) done p = elim (save_last_index_point S p.db (i32 (pos h.height))) [
    | err e ↦ (record p { tx_end_height = h.height }, false, some (not_stored e))
    | ok db' ↦
        let p' = record p { db = db'; tx_end_height = h.height } in
        if done then (p', true, some context_done) else (p', false, none)
  ]

  unfoldable pub range_fn :
      Block Summary → Bool → Progress Db → Progress Db × Bool × Option IndexError
  range_fn b done p =
      let (p', e) = index_txs (block_hash b.header) b.transactions p in
      elim e [ some x ↦ (p', false, some x) | none ↦ finish_block b.header done p' ]

  -- `GetTransactions` over the blocks of the range.
  unfoldable pub index_blocks :
      List (Block Summary × Bool) → Progress Db → Progress Db × Option IndexError
  index_blocks [] p = (p, none)
  index_blocks ((b, done) ∷ rest) p =
      let (p', stop, e) = range_fn b done p in
      elim e [
        | some x ↦ (p', some x)
        | none ↦ elim stop [ true ↦ (p', none) | false ↦ index_blocks rest p' ]
      ]

  -- `blocks begin end` are the blocks from one height to the other.
  unfoldable pub index_transactions :
      (ℤ → ℤ → List (Block Summary × Bool)) → ℤ → Db → Db × Option IndexError
  index_transactions blocks end_height db = elim (read_indexing_start_block S db) [
    | err e ↦ (db, some (not_stored e))
    | ok begin_height ↦
        let (p, e) =
          index_blocks (blocks begin_height end_height)
            (record { db = db; total_index = 0; tx_end_height = 0 }) in
        (p.db, e)
  ]

  unfoldable pub reindex_transactions :
      (ℤ → ℤ → List (Block Summary × Bool)) → ℤ → Db → Db × Option IndexError
  reindex_transactions blocks end_height db = elim (clear_saved_transactions S db) [
    | err e ↦ (db, some (not_stored e))
    | ok db' ↦ index_transactions blocks end_height db'
  ]
