-- ===== src/Txindex/Save.antt =====
-- txindex/save.go and txindex/read.go: storing one transaction, and where indexing starts again.
use text.Mathlib.Text.{◌==◌ as str_eq}
use btclibwallet.Prelude.{
  ◌^◌, String, ◌≡◌, Bool, false, Option, none, some, Result, ok, err, arith, if◌then◌else◌, ◌⊎◌,
  inl, inr, Result-cases,
}
use btclibwallet.Prelude.Int.{ℤ, pos, ◌-ℤ◌, ◌+ℤ◌, ◌≤ℤ◌, ◌<ℤ◌, ltb_ℤ, i32}
use btclibwallet.Types.{Transaction}
use btclibwallet.Txindex.Store.{TxStore, IsTxStore, StormError, not_found, failed}

abbrev pub max_re_org_blocks : ℤ
max_re_org_blocks = pos 6

module _ (S : TxStore) where
  open S use {Db, one, delete_struct, save, get_end_block, set_end_block, drop_all}

  -- The end of `SaveOrUpdate`, from what `One` left in the empty transaction.
  save_over : Db → Transaction → Transaction → Bool × Option StormError × Db
  save_over db old tx =
      let overwritten = ltb_ℤ (pos 0) old.timestamp in
      let db' = if overwritten then delete_struct db old else db in
      elim (save db' tx) [
        | ok db'' ↦ (overwritten, none, db'')
        | err e ↦ (overwritten, some e, db')
      ]

  -- `empty` is the zero transaction that the caller passes. The error for a failed `One` carries
  -- its text.
  unfoldable pub save_or_update : Db → Transaction → Transaction → Bool × Option StormError × Db
  unfolding save_over
  save_or_update db empty tx = elim (one db tx.hash) [
    | ok old ↦ save_over db old tx
    | err not_found ↦ save_over db empty tx
    | err (failed t) ↦ (false, some (failed t), db)
  ]

  unfoldable pub save_last_index_point : Db → ℤ → Result StormError Db
  save_last_index_point db end_block_height = set_end_block db end_block_height

  unfoldable pub clear_saved_transactions : Db → Result StormError Db
  unfolding save_last_index_point
  clear_saved_transactions db = elim (drop_all db) [
    | ok db' ↦ save_last_index_point db' (pos 0)
    | err e ↦ err e
  ]

  -- The int32 `startBlockHeight` after the `Get`: 0 where the key is not there.
  start_from : ℤ → ℤ
  start_from saved =
      let start = i32 (saved -ℤ max_re_org_blocks) in if ltb_ℤ start (pos 0) then pos 0 else start

  unfoldable pub read_indexing_start_block : Db → Result StormError ℤ
  unfolding start_from
  read_indexing_start_block db = elim (get_end_block db) [
    | ok saved ↦ ok (start_from saved)
    | err not_found ↦ ok (start_from (pos 0))
    | err (failed t) ↦ err (failed t)
  ]

  -- A transaction with this hash is in the index.
  abbrev pub Indexed : Db → String → Type 0
  Indexed db h = (t : Transaction) × (one db h ≡ ok t)

  module _ (laws : IsTxStore S) where
    save_over-one :
        (db : Db) (old tx : Transaction) (h : String)
        → (old.hash ≡ tx.hash) ⊎ (ltb_ℤ (pos 0) old.timestamp ≡ false)
        → (save_over db old tx).1 ≡ none
        → one (save_over db old tx).2 h ≡ (if str_eq tx.hash h then ok tx else one db h)
    unfolding save_over
    save_over-one db old tx h same fine =
        let db' : Db = if ltb_ℤ (pos 0) old.timestamp then delete_struct db old else db in
        elim (Result-cases (save db' tx)) [
          | inl (db'', e) ↦
              ground (arith, e, laws.one-save db' db'' tx h, laws.one-delete_struct db old h)
          | inr (x, e) ↦ ground (arith, e)
        ]

    save_over-end_block :
        (db : Db) (old tx : Transaction) → get_end_block (save_over db old tx).2 ≡ get_end_block db
    unfolding save_over
    save_over-end_block db old tx =
        let db' : Db = if ltb_ℤ (pos 0) old.timestamp then delete_struct db old else db in
        elim (Result-cases (save db' tx)) [
          | inl (db'', e) ↦ ground (
            arith,
            e,
            laws.get_end_block-save db' db'' tx,
            laws.get_end_block-delete_struct db old,
          )
          | inr (x, e) ↦ ground (arith, e, laws.get_end_block-delete_struct db old)
        ]

    -- After a save that reports no error, `One` finds the saved transaction by its hash, and by
    -- every other hash what it found before. The caller's empty transaction has timestamp 0.
    pub one-save_or_update :
        (db : Db) (empty tx : Transaction) (h : String)
        → empty.timestamp ≡ pos 0
        → (save_or_update db empty tx).1 ≡ none
        → one (save_or_update db empty tx).2 h ≡ (if str_eq tx.hash h then ok tx else one db h)
    unfolding save_or_update
    one-save_or_update db empty tx h zero_time fine = elim (Result-cases (one db tx.hash)) [
      | inl (old, e) ↦
          ground (arith, e, save_over-one db old tx h (inl (laws.one_hash db tx.hash old e)))
      | inr (x, e) ↦ ground (arith, e, save_over-one db empty tx h (inr (ground arith)))
    ]

    pub end_block-save_or_update :
        (db : Db) (empty tx : Transaction)
        → get_end_block (save_or_update db empty tx).2 ≡ get_end_block db
    unfolding save_or_update
    end_block-save_or_update db empty tx = elim (Result-cases (one db tx.hash)) [
      | inl (old, e) ↦ ground (arith, e, save_over-end_block db old tx)
      | inr (x, e) ↦ ground (arith, e, save_over-end_block db empty tx)
    ]

  -- Indexing starts again at most six blocks below the saved height, never above it, and never
  -- below zero.
  pub start_block_bounds :
      (db : Db) (saved start : ℤ)
      → get_end_block db ≡ ok saved
      → pos 0 ≤ℤ saved
      → saved <ℤ pos (2 ^ 31)
      → read_indexing_start_block db ≡ ok start
      → (start ≤ℤ saved) × (pos 0 ≤ℤ start) × (saved ≤ℤ start +ℤ pos 6)
  unfolding read_indexing_start_block i32 ◌-ℤ◌ ◌+ℤ◌
  start_block_bounds db saved start e h k r = ground arith
