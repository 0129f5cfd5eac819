-- ===== src/Badgerdb/Closed.antt =====
-- A transaction is discarded once.
use btclibwallet.Prelude.{◌≡◌, refl, Bool, false, none, Result, ok, err}
use btclibwallet.Errors.{invalid}
use btclibwallet.Badgerdb.Badger.{Badger, BadgerError}
use btclibwallet.Badgerdb.Transaction.{Tx, rollback, begin_tx, close}

module _ (B : Badger) where
  open B use {Txn}

  -- A transaction on an open database that `beginTx` gives is rolled back once: the first
  -- `Rollback` succeeds, a second one fails as invalid, and so does one after `Close`.
  pub rollback_once :
      (badger_commit : Txn → Result BadgerError Txn) (discard : Txn → Txn)
      (new_transaction : Bool → Txn) (writable : Bool)
      → (tx tx' : Tx Txn) × (begin_tx B new_transaction false writable ≡ ok tx)
        × (rollback B badger_commit discard tx ≡ ok tx')
        × (rollback B badger_commit discard tx' ≡ err invalid)
        × (rollback B badger_commit discard (record tx { closed = (close none false).0 })
            ≡ err invalid)
  unfolding begin_tx rollback close
  rollback_once badger_commit discard new_transaction writable = (_, _, refl, refl, refl, refl)
