-- ===== src/Badgerdb/Transaction.antt =====
-- badgerdb/db.go: a transaction with its database's flag, and what it does to the top-level buckets.
-- A bucket handle is its prefix. The kind stands for an error; its text is not modelled, nor is
-- the wait of `Close`.
use btclibwallet.Prelude.{
  Bool, true, false, Option, none, some, List, [], ◌∷◌, ◌++◌, Result, ok, err, ◌==◌, if◌then◌else◌,
  length, ◌||◌,
}
use btclibwallet.Prelude.Bytes.{Bytes, bytes_eq}
use btclibwallet.Prelude.Bytes.Order.{range}
use btclibwallet.Errors.{Kind, invalid}
use btclibwallet.Badgerdb.Badger.{Badger, shared, BadgerError, Item, kind_of, key_not_found}
use btclibwallet.Badgerdb.Keys.{insert_prefix_length, meta_bucket, slice_to}

pub record Tx (T : Type 0) : Type 0 where
  pub badger_tx : T
  -- the database's flag
  pub closed : Bool
  -- the prefixes of the handles that the transaction has given out
  pub buckets : List Bytes
  pub writable : Bool
  pub is_discarded : Bool

-- `append(tx.buckets[:i], tx.buckets[i+1:]...)` at the first handle with the key.
unfoldable pub forget : Bytes → List Bytes → List Bytes
forget key [] = []
forget key (p ∷ ps) = let rest = forget key ps in if bytes_eq p key then ps else p ∷ rest

module _ (B : Badger) where
  open B use {Txn, get, set_with_meta, delete, items, committed}

  -- A delete whose error is not looked at, of an item's key, which is badger's or the caller's.
  unfoldable pub delete_quietly : Txn → Bytes → Txn
  delete_quietly t k = elim (delete t shared k) [ ok t' ↦ t' | err e ↦ t ]

  -- Does the loop delete this item? Its value is asked for; `val[0]` and `key[:n]` may panic.
  unfoldable pub belongs : Bytes → Item → Option Bool
  belongs owner i = elim i.value [
    | err e ↦ some false
    | ok [] ↦ none
    | ok (n ∷ v) ↦ elim (slice_to n i.key) [ none ↦ none | some p ↦ some (bytes_eq p owner) ]
  ]

  -- The loop that deletes the items of one bucket among those it walks; none is a panic.
  unfoldable pub delete_items : Bytes → List Item → Txn → Option Txn
  delete_items owner [] t = some t
  delete_items owner (i ∷ is) t =
      let gone = delete_items owner is (delete_quietly t i.key) in
      let kept = delete_items owner is t in
      elim (belongs owner i) [ none ↦ none | some true ↦ gone | some false ↦ kept ]

  -- `newBucket`. A key with another meta byte is taken as a bucket: the error is made and dropped.
  unfoldable pub new_bucket : Txn → Bytes → Result Kind Txn
  new_bucket t key = elim (get t key) [
    | ok item ↦ ok t
    | err key_not_found ↦
        elim (set_with_meta t key (insert_prefix_length [] (length key)) meta_bucket) [
          | ok t' ↦ ok t'
          | err e ↦ err (kind_of e)
        ]
    | err e ↦ err (kind_of e)
  ]

  unfoldable pub create_top_level_bucket : Tx Txn → Bytes → Result Kind (Tx Txn)
  create_top_level_bucket tx key =
      if tx.closed then err invalid else elim (new_bucket tx.badger_tx key) [
        | ok t ↦ ok (record tx { badger_tx = t; buckets = tx.buckets ++ key ∷ [] })
        | err e ↦ err e
      ]

  -- Also `ReadBucket`. A nil bucket is none.
  unfoldable pub read_write_bucket : Tx Txn → Bytes → Option (Tx Txn)
  read_write_bucket tx key = if tx.closed then none else elim (get tx.badger_tx key) [
    | err e ↦ none
    | ok item ↦
        if item.user_meta == meta_bucket
        then some (record tx { buckets = tx.buckets ++ key ∷ [] })
        else none
  ]

  unfoldable pub delete_top_level : Tx Txn → Bytes → Option (Result Kind (Tx Txn))
  delete_top_level tx key =
      let t = delete_quietly tx.badger_tx key in
      elim (delete_items key (range (λ i. i.key) key (items t)) t) [
        | none ↦ none
        | some t' ↦ some (ok (record tx { badger_tx = t'; buckets = forget key tx.buckets }))
      ]

  unfoldable pub delete_top_level_bucket : Tx Txn → Bytes → Option (Result Kind (Tx Txn))
  delete_top_level_bucket tx key =
      if tx.closed then some (err invalid) else elim (get tx.badger_tx key) [
        | err e ↦ some (err (kind_of e))
        | ok item ↦
            if item.user_meta == meta_bucket then delete_top_level tx key else some (err invalid)
      ]

  module _ (badger_commit : Txn → Result BadgerError Txn) (discard : Txn → Txn) where
    unfoldable pub commit : Tx Txn → Result Kind (Tx Txn)
    commit tx = if tx.closed then err invalid else elim (badger_commit tx.badger_tx) [
      | ok t ↦ ok (record tx { badger_tx = t })
      | err e ↦ err (kind_of e)
    ]

    unfoldable pub rollback : Tx Txn → Result Kind (Tx Txn)
    rollback tx =
        if tx.closed || tx.is_discarded
        then err invalid
        else ok (record tx { badger_tx = discard tx.badger_tx; is_discarded = true })

  -- `beginTx`, of a database with this flag, by badger's `NewTransaction`.
  unfoldable pub begin_tx : (Bool → Txn) → Bool → Bool → Result Kind (Tx Txn)
  begin_tx new_transaction closed writable =
      if closed
      then err invalid
      else ok (record {
        badger_tx = new_transaction writable;
        closed = closed;
        buckets = [];
        writable = writable;
        is_discarded = false;
      })

-- `Close` of a database with this flag; badger's own error after it is passed on.
unfoldable pub close : Option BadgerError → Bool → Bool × Option Kind
close badger_close closed =
    if closed
    then (true, some invalid)
    else elim badger_close [ none ↦ (true, none) | some e ↦ (true, some (kind_of e)) ]
