-- ===== src/Badgerdb/Bucket.antt =====
-- badgerdb/bucket.go and the methods of db.go that call it: a bucket's operations, on a
-- transaction and the bucket's prefix. `convertErr` leaves an error that the driver made its kind,
-- as dcrwallet's `errors.E` does; the list of nested handles in a bucket is left out, as only
-- `setTx` reads it.
use btclibwallet.Prelude.{
  ℕ, Bool, true, false, Option, none, some, List, [], ◌∷◌, ◌++◌, Result, ok, err, ◌==◌, ltb,
  if◌then◌else◌, length, drop, not,
}
use btclibwallet.Prelude.Bytes.{Bytes, bytes_eq}
use btclibwallet.Prelude.Bytes.Order.{range}
use btclibwallet.Errors.{Kind, invalid, exist}
use btclibwallet.Badgerdb.Badger.{
  Badger, Memory, own, shared, BadgerError, Item, kind_of, key_not_found,
}
use btclibwallet.Badgerdb.Keys.{
  insert_prefix_length, add_prefix, meta_bucket, max_key_size, slice_to,
}
use btclibwallet.Badgerdb.Transaction.{Tx, delete_quietly, delete_items}

-- `k[n:]`, and the value that the callback is given: nil for a bucket.
abbrev pub entry_value : Item → Bytes → Option Bytes
entry_value i v = if i.user_meta == meta_bucket then none else some v

module _ (B : Badger) where
  open B use {Txn, get, set, set_with_meta, delete, items, committed}

  abbrev with_txn : Tx Txn → Result BadgerError Txn → Result Kind (Tx Txn)
  with_txn tx (ok t) = ok (record tx { badger_tx = t })
  with_txn tx (err e) = err (kind_of e)

  -- `Get`: the inner none is nil, the outer none is a panic.
  unfoldable pub bucket_get : Tx Txn → Bytes → Bytes → Option (Option Bytes)
  bucket_get tx prefix key =
      if tx.closed
      then some none
      else if length key == 0
      then some none
      else elim (add_prefix prefix key) [
        | err e ↦ some none
        | ok k ↦ elim (get tx.badger_tx k) [
          | err e ↦ some none
          | ok item ↦ elim item.value [
            | err e ↦ some none
            | ok [] ↦ none
            | ok (n ∷ v) ↦ some (some v)
          ]
        ]
      ]

  -- `append` puts the key behind the prefix in its array, where that has room for so many bytes more:
  -- the next key of the bucket is then put over it. A bucket that was just created has no room;
  -- how much the prefix of a `NestedReadWriteBucket` has is left to Go's `append`.
  abbrev pub appended : ℕ → Bytes → Memory
  appended room key = if ltb room (length key) then own else shared

  unfoldable pub put : Tx Txn → ℕ → Bytes → Bytes → Bytes → Result Kind (Tx Txn)
  put tx room prefix key value =
      if tx.closed
      then err invalid
      else if length key == 0
      then err invalid
      else if ltb max_key_size (length key)
      then err invalid
      else elim (add_prefix prefix key) [
        | err e ↦ err e
        | ok k ↦
            with_txn tx
              (set tx.badger_tx (appended room key) k (insert_prefix_length value (length prefix)))
      ]

  unfoldable pub bucket_delete : Tx Txn → ℕ → Bytes → Bytes → Result Kind (Tx Txn)
  bucket_delete tx room prefix key =
      if tx.closed
      then err invalid
      else if length key == 0
      then ok tx
      else elim (add_prefix prefix key) [
        | err e ↦ err e
        | ok k ↦ elim (delete tx.badger_tx (appended room key) k) [
          | ok t ↦ ok (record tx { badger_tx = t })
          | err key_not_found ↦ ok tx
          | err e ↦ err (kind_of e)
        ]
      ]

  -- `bucket`: a key that `Get` gives no item for, whatever the error, is made a bucket. The result
  -- is the transaction and the nested bucket's prefix.
  unfoldable pub nested : Tx Txn → Bytes → Bytes → Bool → Result Kind (Tx Txn × Bytes)
  nested tx prefix key error_if_exists =
      if length key == 0 then err invalid else elim (add_prefix prefix key) [
        | err e ↦ err e
        | ok k ↦ elim (get tx.badger_tx k) [
          | err e ↦
              elim (set_with_meta tx.badger_tx k (insert_prefix_length [] (length prefix))
                meta_bucket) [
                  | err e' ↦ err (kind_of e')
                  | ok t ↦ ok (record tx { badger_tx = t }, k)
                ]
          | ok item ↦
              if not (item.user_meta == meta_bucket)
              then err invalid
              else if error_if_exists
              then err exist
              else ok (tx, k)
        ]
      ]

  unfoldable pub create_bucket : Tx Txn → Bytes → Bytes → Result Kind (Tx Txn × Bytes)
  create_bucket tx prefix key = if tx.closed then err invalid else nested tx prefix key true

  unfoldable pub create_bucket_if_not_exists : Tx Txn → Bytes → Bytes → Result Kind (Tx Txn × Bytes)
  create_bucket_if_not_exists tx prefix key =
      if tx.closed then err invalid else nested tx prefix key false

  -- Also `NestedReadBucket`. A nil bucket is none.
  unfoldable pub nested_read_write_bucket : Tx Txn → Bytes → Bytes → Option (Tx Txn × Bytes)
  nested_read_write_bucket tx prefix key =
      if tx.closed then none else elim (add_prefix prefix key) [
        | err e ↦ none
        | ok k ↦ elim (get tx.badger_tx k) [
          | err e ↦ none
          | ok item ↦
              if item.user_meta == meta_bucket
              then some (record tx { buckets = tx.buckets ++ k ∷ [] }, k)
              else none
        ]
      ]

  -- `dropBucket`: the key itself goes, and of the items that are committed under it, those whose
  -- stamp says that they are of the bucket b itself.
  unfoldable pub drop_bucket_items : Tx Txn → Bytes → Bytes → Option (Result Kind (Tx Txn))
  drop_bucket_items tx prefix k =
      let t = delete_quietly B tx.badger_tx k in
      elim (delete_items B prefix (range (λ i. i.key) k (committed t)) t) [
        | none ↦ none
        | some t' ↦ some (ok (record tx { badger_tx = t' }))
      ]

  unfoldable pub drop_bucket : Tx Txn → Bytes → Bytes → Option (Result Kind (Tx Txn))
  drop_bucket tx prefix key =
      if not tx.writable then some (err invalid) else elim (add_prefix prefix key) [
        | err e ↦ some (err e)
        | ok k ↦ elim (get tx.badger_tx k) [
          | err e ↦ some (err (kind_of e))
          | ok item ↦
              if item.user_meta == meta_bucket
              then drop_bucket_items tx prefix k
              else some (err invalid)
        ]
      ]

  -- `DeleteNestedBucket`; a nil key is none.
  unfoldable pub delete_nested_bucket :
      Tx Txn → Bytes → Option Bytes → Option (Result Kind (Tx Txn))
  delete_nested_bucket tx prefix none = some (err invalid)
  delete_nested_bucket tx prefix (some key) =
      if tx.closed then some (err invalid) else drop_bucket tx prefix key

  module _ {S : Type 0} (fn : Bytes → Option Bytes → S → S × Option Kind) where
    -- The loop over the items that it walks; the callback's own state is s, and none is a panic.
    unfoldable pub for_each_items : Bytes → List Item → S → Option (S × Option Kind)
    for_each_items prefix [] s = some (s, none)
    for_each_items prefix (i ∷ is) s =
        let rest = for_each_items prefix is in
        if bytes_eq i.key prefix then rest s else elim i.value [
          | err e ↦ some (s, some (kind_of e))
          | ok [] ↦ none
          | ok (n ∷ v) ↦ elim (slice_to n i.key) [
            | none ↦ none
            | some p ↦
                if bytes_eq p prefix
                then (let (s', e) = fn (drop n i.key) (entry_value i v) s in
                    elim e [ none ↦ rest s' | some k ↦ some (s', some k) ])
                else rest s
          ]
        ]

    unfoldable pub for_each : Tx Txn → Bytes → S → Option (S × Option Kind)
    for_each tx prefix s =
        if tx.closed
        then some (s, some invalid)
        else for_each_items prefix (range (λ i. i.key) prefix (items tx.badger_tx)) s
