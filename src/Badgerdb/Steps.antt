-- ===== src/Badgerdb/Steps.antt =====
-- The operations of a transaction as steps: what they keep, whatever their order.
use btclibwallet.Prelude.{
  ℕ, ◌≡◌, ◌≢◌, subst, true, false, Option, none, some, ◌++◌, ok, ◌==◌, length, arith, inl, inr,
  Result-cases, Bool-cases, Elem,
}
use btclibwallet.Prelude.Bytes.{Bytes}
use btclibwallet.Prelude.Bytes.Order.{range}
use btclibwallet.Badgerdb.Badger.{Badger, Item, IsBadger, key_not_found}
use btclibwallet.Badgerdb.Keys.{add_prefix}
use btclibwallet.Badgerdb.Transaction.{
  Tx, delete_quietly, new_bucket, create_top_level_bucket, read_write_bucket,
  delete_top_level_bucket, delete_top_level,
}
use btclibwallet.Badgerdb.Bucket.{
  bucket_get, put, bucket_delete, create_bucket, create_bucket_if_not_exists,
  nested_read_write_bucket, drop_bucket, drop_bucket_items,
}
use btclibwallet.Badgerdb.Loops.{ItemStamped, delete_top_level_bucket-ok, drop_bucket-ok}
use btclibwallet.Badgerdb.Stamp.{
  IsStamped, delete-IsStamped, delete_quietly-IsStamped, put-IsStamped, new_bucket-IsStamped,
  nested-IsStamped, delete_items-IsStamped, delete_items-total, items-stamped, range-stamped,
}
use btclibwallet.Badgerdb.Bucket.{appended, delete_nested_bucket}

module _ (B : Badger) where
  open B use {Txn, get, set, set_with_meta, delete, items, committed}

  -- A call that succeeds.
  pub data Step : Tx Txn → Tx Txn → Type 0 where
    by_put :
        {tx tx' : Tx Txn} (room : ℕ) (p k v : Bytes) → put B tx room p k v ≡ ok tx' → Step tx tx'
    by_delete :
        {tx tx' : Tx Txn} (room : ℕ) (p k : Bytes)
        → bucket_delete B tx room p k ≡ ok tx'
        → Step tx tx'
    by_create :
        {tx tx' : Tx Txn} (p k b : Bytes) → create_bucket B tx p k ≡ ok (tx', b) → Step tx tx'
    by_create_if_not_exists :
        {tx tx' : Tx Txn} (p k b : Bytes)
        → create_bucket_if_not_exists B tx p k ≡ ok (tx', b)
        → Step tx tx'
    by_create_top_level :
        {tx tx' : Tx Txn} (k : Bytes) → create_top_level_bucket B tx k ≡ ok tx' → Step tx tx'
    by_open : {tx tx' : Tx Txn} (k : Bytes) → read_write_bucket B tx k ≡ some tx' → Step tx tx'
    by_open_nested :
        {tx tx' : Tx Txn} (p k b : Bytes)
        → nested_read_write_bucket B tx p k ≡ some (tx', b)
        → Step tx tx'
    by_delete_top_level :
        {tx tx' : Tx Txn} (k : Bytes) → delete_top_level_bucket B tx k ≡ some (ok tx') → Step tx tx'
    by_delete_nested :
        {tx tx' : Tx Txn} (p : Bytes) (k : Option Bytes)
        → delete_nested_bucket B tx p k ≡ some (ok tx')
        → Step tx tx'

  pub data Steps : Tx Txn → Tx Txn → Type 0 where
    done : {tx : Tx Txn} → Steps tx tx
    then_step : {tx tx' tx'' : Tx Txn} → Step tx tx' → Steps tx' tx'' → Steps tx tx''

  module _ (laws : IsBadger B) where
    bucket_delete-IsStamped :
        (tx tx' : Tx Txn) (room : ℕ) (p k : Bytes)
        → IsStamped B tx.badger_tx
        → bucket_delete B tx room p k ≡ ok tx'
        → IsStamped B tx'.badger_tx
    unfolding bucket_delete add_prefix delete_quietly
    bucket_delete-IsStamped tx tx' room p k s h =
        elim (Result-cases (delete tx.badger_tx (appended B room k) (p ++ k))) [
          | inl (t, e) ↦ elim (Bool-cases (length k == 0)) [
            | inl z ↦ subst (IsStamped B) (ground (arith, z)) s
            | inr z ↦
                subst (IsStamped B) (ground (arith, z, e))
                  (delete-IsStamped B laws tx.badger_tx t (appended B room k) (p ++ k) s e)
          ]
          | inr (key_not_found, e) ↦ subst (IsStamped B) (ground (arith, e)) s
          | inr (x, e) ↦ subst (IsStamped B) (ground (arith, e)) s
        ]

    Step-IsStamped :
        {tx tx' : Tx Txn} → Step tx tx' → IsStamped B tx.badger_tx → IsStamped B tx'.badger_tx
    unfolding create_bucket create_bucket_if_not_exists create_top_level_bucket read_write_bucket
        nested_read_write_bucket add_prefix delete_nested_bucket
    Step-IsStamped {tx} {tx'} (by_put room p k v h) s = put-IsStamped B laws tx tx' room p k v s h
    Step-IsStamped {tx} {tx'} (by_delete room p k h) s = bucket_delete-IsStamped tx tx' room p k s h
    Step-IsStamped {tx} {tx'} (by_create p k b h) s =
        nested-IsStamped B laws tx tx' p k b true s (ground arith)
    Step-IsStamped {tx} {tx'} (by_create_if_not_exists p k b h) s =
        nested-IsStamped B laws tx tx' p k b false s (ground arith)
    Step-IsStamped {tx} {tx'} (by_create_top_level k h) s =
        elim (Result-cases (new_bucket B tx.badger_tx k)) [
          | inl (t, e) ↦
              new_bucket-IsStamped B laws tx.badger_tx tx'.badger_tx k s (ground (arith, e))
          | inr (x, e) ↦ absurd (ground (arith, e))
        ]
    Step-IsStamped {tx} {tx'} (by_open k h) s = subst (IsStamped B) (ground arith) s
    Step-IsStamped {tx} {tx'} (by_open_nested p k b h) s = subst (IsStamped B) (ground arith) s
    Step-IsStamped {tx} {tx'} (by_delete_top_level k h) s =
        let (t, e, same, c) = delete_top_level_bucket-ok B tx tx' k h in
        rw same (
          delete_items-IsStamped B laws k _ _ t (delete_quietly-IsStamped B laws tx.badger_tx k s)
            e)
    Step-IsStamped {tx} {tx'} (by_delete_nested p none h) s = absurd (ground arith)
    Step-IsStamped {tx} {tx'} (by_delete_nested p (some k) h) s =
        let (t, e, same, c) = drop_bucket-ok B tx tx' p k (ground arith) in
        rw same (
          delete_items-IsStamped B laws p _ _ t
            (delete_quietly-IsStamped B laws tx.badger_tx (p ++ k) s) e)

    -- Where each stored value begins with a byte that cuts its key, it still does after any
    -- sequence of operations that succeed.
    pub Steps-IsStamped :
        (tx tx' : Tx Txn) → Steps tx tx' → IsStamped B tx.badger_tx → IsStamped B tx'.badger_tx
    Steps-IsStamped tx _ done s = s
    Steps-IsStamped tx tx'' (then_step {tx' = tx'} h hs) s =
        Steps-IsStamped tx' tx'' hs (Step-IsStamped h s)

    bucket_get-total :
        (tx : Tx Txn) (p k : Bytes)
        → IsStamped B tx.badger_tx
        → (r : Option Bytes) × (bucket_get B tx p k ≡ some r)
    unfolding bucket_get
    bucket_get-total tx p k s = elim (Result-cases (add_prefix p k)) [
      | inr (x, e) ↦ elim (Bool-cases tx.closed) [
        | inl c ↦ (none, ground (arith, c))
        | inr c ↦ (none, ground (arith, e, c))
      ]
      | inl (q, e) ↦ elim (Result-cases (get tx.badger_tx q)) [
        | inr (x, g) ↦ (none, ground (arith, e, g))
        | inl (i, g) ↦
            let (n, v, w, a) = s q i g in
            elim (Bool-cases tx.closed) [
              | inl c ↦ (none, ground (arith, c))
              | inr c ↦ elim (Bool-cases (length k == 0)) [
                | inl z ↦ (none, ground (arith, z))
                | inr z ↦ (some v, ground (arith, e, g, w, c, z))
              ]
            ]
      ]
    ]

    top_level-total :
        (tx : Tx Txn) (k : Bytes) → IsStamped B tx.badger_tx → delete_top_level_bucket B tx k ≢ none
    unfolding delete_top_level_bucket delete_top_level
    top_level-total tx k s e =
        let t : Txn = delete_quietly B tx.badger_tx k in
        let (t', q) = delete_items-total B laws k (range (λ i. i.key) k (items t)) t (
          range-stamped B laws (items t) k
            (items-stamped B laws t (delete_quietly-IsStamped B laws tx.badger_tx k s))) in
        elim (Result-cases (get tx.badger_tx k)) [
          | inl (i, g) ↦ absurd (ground (arith, q, g))
          | inr (x, g) ↦ absurd (ground (arith, g))
        ]

    nested-total :
        (tx : Tx Txn) (p : Bytes) (k : Option Bytes)
        → IsStamped B tx.badger_tx
        → ((t : Txn) (i : Item) → Elem i (committed t) → ItemStamped i)
        → delete_nested_bucket B tx p k ≢ none
    unfolding delete_nested_bucket drop_bucket drop_bucket_items add_prefix
    nested-total tx p none s c e = absurd (ground arith)
    nested-total tx p (some k) s c e =
        let t : Txn = delete_quietly B tx.badger_tx (p ++ k) in
        let (t', q) =
          delete_items-total B laws p (range (λ i. i.key) (p ++ k) (committed t)) t
            (range-stamped B laws (committed t) (p ++ k) (c t)) in
        elim (Result-cases (get tx.badger_tx (p ++ k))) [
          | inl (i, g) ↦ absurd (ground (arith, q, g))
          | inr (x, g) ↦ absurd (ground (arith, g))
        ]

    -- In a table where each stored value begins with a byte that cuts its key, and of which the
    -- committed items do too, `Get`, `DeleteTopLevelBucket` and `DeleteNestedBucket` return on
    -- every argument: no slice is out of range.
    pub stamped-no_panic :
        (tx : Tx Txn)
        → IsStamped B tx.badger_tx
        → ((t : Txn) (i : Item) → Elem i (committed t) → ItemStamped i)
        → ((p k : Bytes) → bucket_get B tx p k ≢ none)
          × ((k : Bytes) → delete_top_level_bucket B tx k ≢ none)
          × ((p : Bytes) (k : Option Bytes) → delete_nested_bucket B tx p k ≢ none)
    stamped-no_panic tx s c = (
      λ p k e. let (r, q) = bucket_get-total tx p k s in absurd (ground (arith, q, e)),
      λ k e. top_level-total tx k s e,
      λ p k e. nested-total tx p k s c e,
    )
