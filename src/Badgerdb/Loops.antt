-- ===== src/Badgerdb/Loops.antt =====
-- The loops that delete a bucket's items: what a run of them that ends did.
use btclibwallet.Prelude.{
  ℕ, ◌≤◌, ◌≡◌, Bool, true, false, some, List, ◌∷◌, ◌++◌, ok, length, take, arith, ◌⊎◌, inl, inr,
  Result-cases, Option-cases,
}
use btclibwallet.Prelude.Bytes.{Bytes, bytes_eq}
use btclibwallet.Prelude.Bytes.Order.{range}
use btclibwallet.Badgerdb.Badger.{Badger, Item}
use btclibwallet.Badgerdb.Keys.{add_prefix, slice_to}
use btclibwallet.Badgerdb.Transaction.{
  Tx, delete_quietly, delete_items, belongs, delete_top_level_bucket, delete_top_level, forget,
}
use btclibwallet.Badgerdb.Bucket.{drop_bucket, drop_bucket_items}

-- The value begins with a byte that is at most the length of the key.
abbrev pub ItemStamped : Item → Type 0
ItemStamped i = (n : ℕ) × (v : Bytes) × (i.value ≡ ok (n ∷ v)) × (n ≤ length i.key)

module _ (B : Badger) where
  open B use {Txn, get, items, committed}

  pub belongs-total : (p : Bytes) (i : Item) → ItemStamped i → (b : Bool) × (belongs B p i ≡ some b)
  unfolding belongs slice_to
  belongs-total p i (n, v, e, a) = (bytes_eq (take n i.key) p, ground (arith, e))

  -- A loop that ends went past its first item, with or without deleting it.
  pub delete_items-step :
      (p : Bytes) (i : Item) (is : List Item) (t t' : Txn)
      → delete_items B p (i ∷ is) t ≡ some t'
      → ((belongs B p i ≡ some true) × (delete_items B p is (delete_quietly B t i.key) ≡ some t'))
        ⊎ ((belongs B p i ≡ some false) × (delete_items B p is t ≡ some t'))
  unfolding delete_items
  delete_items-step p i is t t' h = elim (Option-cases (belongs B p i)) [
    | inl e ↦ absurd (ground (arith, e))
    | inr (true, e) ↦ inl (e, ground (arith, e))
    | inr (false, e) ↦ inr (e, ground (arith, e))
  ]

  -- What a `DeleteTopLevelBucket` that succeeds did.
  pub delete_top_level_bucket-ok :
      (tx tx' : Tx Txn) (k : Bytes)
      → delete_top_level_bucket B tx k ≡ some (ok tx')
      → (t : Txn) × (delete_items B k
            (range (λ i. i.key) k (items (delete_quietly B tx.badger_tx k)))
            (delete_quietly B tx.badger_tx k)
          ≡ some t)
        × (tx' ≡ record tx { badger_tx = t; buckets = forget k tx.buckets })
        × (tx.closed ≡ false)
  unfolding delete_top_level_bucket delete_top_level
  delete_top_level_bucket-ok tx tx' k h = elim (Result-cases (get tx.badger_tx k)) [
    | inr (x, e) ↦ absurd (ground (arith, e))
    | inl (i, e) ↦
        elim (Option-cases (
          delete_items B k (range (λ i. i.key) k (items (delete_quietly B tx.badger_tx k)))
            (delete_quietly B tx.badger_tx k))) [
              | inl d ↦ absurd (ground (arith, e, d))
              | inr (t, d) ↦ (t, d, ground (arith, e, d), ground (arith, e, d))
            ]
  ]

  -- What a dropped bucket's loop walked and did.
  pub drop_bucket-ok :
      (tx tx' : Tx Txn) (p k : Bytes)
      → drop_bucket B tx p k ≡ some (ok tx')
      → (t : Txn) × (delete_items B p
            (range (λ i. i.key) (p ++ k) (committed (delete_quietly B tx.badger_tx (p ++ k))))
            (delete_quietly B tx.badger_tx (p ++ k))
          ≡ some t)
        × (tx' ≡ record tx { badger_tx = t })
        × (tx.writable ≡ true)
  unfolding drop_bucket drop_bucket_items add_prefix
  drop_bucket-ok tx tx' p k h = elim (Result-cases (get tx.badger_tx (p ++ k))) [
    | inr (x, e) ↦ absurd (ground (arith, e))
    | inl (i, e) ↦
        elim (Option-cases (
          delete_items B p
            (range (λ i. i.key) (p ++ k) (committed (delete_quietly B tx.badger_tx (p ++ k))))
            (delete_quietly B tx.badger_tx (p ++ k)))) [
              | inl d ↦ absurd (ground (arith, e, d))
              | inr (t, d) ↦ (t, d, ground (arith, e, d), ground (arith, e, d))
            ]
  ]
