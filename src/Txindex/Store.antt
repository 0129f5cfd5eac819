-- ===== src/Txindex/Store.antt =====
-- What the index asks of storm: one table of transactions by their hash, and the stored height of
-- the last indexed block. A call is a database transaction of its own: where it fails, it changes
-- nothing.
use text.Mathlib.Text.{◌==◌ as str_eq}
use btclibwallet.Prelude.{String, ◌≡◌, Result, ok, if◌then◌else◌, false}
use btclibwallet.Prelude.Int.{ℤ}
use btclibwallet.Types.{Transaction}

-- storm.ErrNotFound, and any other error with its text.
pub data StormError : Type 0 where
  not_found : StormError
  failed : String → StormError

pub record TxStore : Type 1 where
  pub Db : Type 0
  -- One("Hash", h, &tx)
  pub one : Db → String → Result StormError Transaction
  -- DeleteStruct(&tx), whose error the code drops
  pub delete_struct : Db → Transaction → Db
  -- Save(tx)
  pub save : Db → Transaction → Result StormError Db
  -- Get and Set of the key EndBlock
  pub get_end_block : Db → Result StormError ℤ
  pub set_end_block : Db → ℤ → Result StormError Db
  -- Drop(&tx)
  pub drop_all : Db → Result StormError Db

-- The documented behaviour of those calls.
pub record IsTxStore (S : TxStore) : Type 0 where
  pub one_hash : (db : S.Db) (h : String) (t : Transaction) → S.one db h ≡ ok t → t.hash ≡ h
  pub one-save :
      (db db' : S.Db) (t : Transaction) (h : String)
      → S.save db t ≡ ok db'
      → S.one db' h ≡ (if str_eq t.hash h then ok t else S.one db h)
  pub one-delete_struct :
      (db : S.Db) (t : Transaction) (h : String)
      → str_eq t.hash h ≡ false
      → S.one (S.delete_struct db t) h ≡ S.one db h
  pub one-set_end_block :
      (db db' : S.Db) (n : ℤ) (h : String)
      → S.set_end_block db n ≡ ok db'
      → S.one db' h ≡ S.one db h
  pub get_end_block-set_end_block :
      (db db' : S.Db) (n : ℤ) → S.set_end_block db n ≡ ok db' → S.get_end_block db' ≡ ok n
  pub get_end_block-save :
      (db db' : S.Db) (t : Transaction)
      → S.save db t ≡ ok db'
      → S.get_end_block db' ≡ S.get_end_block db
  pub get_end_block-delete_struct :
      (db : S.Db) (t : Transaction) → S.get_end_block (S.delete_struct db t) ≡ S.get_end_block db
