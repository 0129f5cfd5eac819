-- ===== src/Badgerdb/Badger.antt =====
-- What the driver asks of badger, which is a parameter: the state of a transaction, its reads and
-- writes, and what an iterator walks. badger asks that the bytes of a key that is written are not
-- changed until the transaction ends; a key whose bytes the driver may overwrite is `shared`, and
-- what is written at it counts, or as if it was not written: badger tells by the key's bytes.
use btclibwallet.Prelude.{ℕ, ◌≡◌, ◌↔◌, ◌⊎◌, List, Result, ok, err, if◌then◌else◌, Elem}
use btclibwallet.Prelude.Bytes.{Bytes, bytes_eq}
use btclibwallet.Prelude.Bytes.Order.{IsSorted}
use btclibwallet.Errors.{Kind, other, invalid, not_exist, io}

-- The errors of badger that the driver tells apart, and the others.
pub data BadgerError : Type 0 where
  value_log_size value_threshold txn_too_big read_only_txn discarded_txn empty_key : BadgerError
  threshold_zero rejected invalid_request managed_txn invalid_dump zero_bandwidth : BadgerError
  invalid_loading_mode windows_not_supported replay_needed truncate_needed : BadgerError
  key_not_found : BadgerError
  conflict retry no_rewrite : BadgerError
  unlisted : BadgerError

-- The kind that `convertErr` gives a badger error.
unfoldable pub kind_of : BadgerError → Kind
kind_of key_not_found = not_exist
kind_of conflict = io
kind_of retry = io
kind_of no_rewrite = io
kind_of unlisted = other
kind_of e = invalid

-- An item: its key, what `Value` gives, and the byte of user meta data.
pub record Item : Type 0 where
  pub key : Bytes
  pub value : Result BadgerError Bytes
  pub user_meta : ℕ

-- Are the bytes of a key its own, or may they be overwritten later in the transaction?
pub data Memory : Type 0 where
  own shared : Memory

pub record Badger : Type 1 where
  -- the state of a transaction
  pub Txn : Type 0
  pub get : Txn → Bytes → Result BadgerError Item
  -- a refused write or delete changes nothing
  pub set_with_meta : Txn → Bytes → Bytes → ℕ → Result BadgerError Txn
  pub set : Txn → Memory → Bytes → Bytes → Result BadgerError Txn
  pub delete : Txn → Memory → Bytes → Result BadgerError Txn
  -- what an iterator of the transaction walks, its own writes included
  pub items : Txn → List Item
  -- what an iterator of a new read-only transaction of the database walks: what is committed
  pub committed : Txn → List Item

-- The documented behaviour: reads see the transaction's own writes, `Set` writes no meta data, an item
-- has the key that was asked for, and an iterator walks the items that `Get` finds, in the order of their keys.
pub record IsBadger (B : Badger) : Type 0 where
  pub get-set_with_meta :
      (t t' : B.Txn) (k v : Bytes) (m : ℕ) (j : Bytes)
      → B.set_with_meta t k v m ≡ ok t'
      → B.get t' j
        ≡ (if bytes_eq k j then ok (record { key = k; value = ok v; user_meta = m }) else B.get t j)
  -- a write at a key is seen at that key and nowhere else, and surely if the key's bytes are its own
  pub set-cases :
      (t t' : B.Txn) (m : Memory) (k v j : Bytes)
      → B.set t m k v ≡ ok t'
      → ((k ≡ j) × (B.get t' j ≡ ok (record { key = k; value = ok v; user_meta = 0 })))
        ⊎ (B.get t' j ≡ B.get t j)
  pub set-own :
      (t t' : B.Txn) (k v : Bytes)
      → B.set t own k v ≡ ok t'
      → B.get t' k ≡ ok (record { key = k; value = ok v; user_meta = 0 })
  pub delete-cases :
      (t t' : B.Txn) (m : Memory) (k j : Bytes)
      → B.delete t m k ≡ ok t'
      → ((k ≡ j) × (B.get t' j ≡ err key_not_found)) ⊎ (B.get t' j ≡ B.get t j)
  pub delete-own :
      (t t' : B.Txn) (k : Bytes) → B.delete t own k ≡ ok t' → B.get t' k ≡ err key_not_found
  -- a delete that reports a missing key met one
  pub get-delete_missing :
      (t : B.Txn) (m : Memory) (k : Bytes)
      → B.delete t m k ≡ err key_not_found
      → B.get t k ≡ err key_not_found
  pub key-get : (t : B.Txn) (k : Bytes) (i : Item) → B.get t k ≡ ok i → i.key ≡ k
  pub elem-items : (t : B.Txn) (i : Item) → Elem i (B.items t) ↔ (B.get t i.key ≡ ok i)
  pub items-IsSorted : (t : B.Txn) → IsSorted (λ i. i.key) (B.items t)
