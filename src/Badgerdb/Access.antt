-- ===== src/Badgerdb/Access.antt =====
-- What a bucket reads after it was written to.
use btclibwallet.Prelude.{
  ℕ, ◌<◌, ◌≤◌, ◌≡◌, refl, subst, true, false, none, some, [], ◌∷◌, ◌++◌, ok, err, if◌then◌else◌,
  length, arith, ◌⊎◌, inl, inr, Result-cases, Bool-cases,
}
use btclibwallet.Prelude.Bytes.{bytes_eq_iff, Bytes, bytes_eq, bytes_eq_refl, eq_of_bytes_eq}
use btclibwallet.Errors.{exist}
use btclibwallet.Badgerdb.Badger.{Badger, IsBadger, own, key_not_found}
use btclibwallet.Badgerdb.Keys.{add_prefix, max_key_size, meta_bucket, insert_prefix_length}
use btclibwallet.Badgerdb.Transaction.{Tx}
use btclibwallet.Badgerdb.Bucket.{
  appended, bucket_get, put, bucket_delete, create_bucket, create_bucket_if_not_exists, nested,
  nested_read_write_bucket,
}

module _ (B : Badger) where
  open B use {Txn, get, set, set_with_meta, delete}

  -- A write that succeeds stored the value, stamped, and changed nothing else of the transaction.
  pub put-ok :
      (tx tx' : Tx Txn) (room : ℕ) (p k v : Bytes)
      → put B tx room p k v ≡ ok tx'
      → (t : Txn) × (set tx.badger_tx
            (appended B room k)
            (p ++ k)
            (insert_prefix_length v (length p))
          ≡ ok t)
        × (tx' ≡ record tx { badger_tx = t })
        × (tx.closed ≡ false)
        × (0 < length k)
        × (length k ≤ max_key_size)
  unfolding put add_prefix
  put-ok tx tx' room p k v h =
      elim (Result-cases
        (set tx.badger_tx (appended B room k) (p ++ k) (insert_prefix_length v (length p)))) [
          | inl (t, e) ↦
              (t, e, ground (arith, e), ground (arith, e), ground (arith, e), ground (arith, e))
          | inr (e, b) ↦ absurd (ground (arith, b))
        ]

  module _ (laws : IsBadger B) where
    get-set :
        (t t' : Txn) (k v j : Bytes)
        → set t own k v ≡ ok t'
        → get t' j
          ≡ (if bytes_eq k j then ok (record { key = k; value = ok v; user_meta = 0 }) else get t j)
    get-set t t' k v j e = elim (Bool-cases (bytes_eq k j)) [
      | inl x ↦ rw x (
          subst (λ z. get t' z ≡ ok (record { key = k; value = ok v; user_meta = 0 }))
            (eq_of_bytes_eq k j x) (laws.set-own t t' k v e))
      | inr x ↦ rw x (elim (laws.set-cases t t' own k v j e) [
        | inl (q, g) ↦ absurd (ground (arith, x, (bytes_eq_iff k j).1 q))
        | inr g ↦ g
      ])
    ]

    get-delete :
        (t t' : Txn) (k j : Bytes)
        → delete t own k ≡ ok t'
        → get t' j ≡ (if bytes_eq k j then err key_not_found else get t j)
    get-delete t t' k j e = elim (Bool-cases (bytes_eq k j)) [
      | inl x ↦ rw x (
          subst (λ z. get t' z ≡ err key_not_found) (eq_of_bytes_eq k j x)
            (laws.delete-own t t' k e))
      | inr x ↦ rw x (elim (laws.delete-cases t t' own k j e) [
        | inl (q, g) ↦ absurd (ground (arith, x, (bytes_eq_iff k j).1 q))
        | inr g ↦ g
      ])
    ]

    appended-own : (room : ℕ) (k : Bytes) → room < length k → appended B room k ≡ own
    appended-own room k h = ground arith

    -- After a `Put` that succeeds, on a bucket whose prefix has no room behind it for the key, as that
    -- of a new bucket has none, `Get` of a key (of at least one byte and at most the maximum),
    -- in any bucket of the transaction, gives the value put if prefix and key together are the
    -- string that was written, and what it gave before otherwise.
    pub get-put :
        (tx tx' : Tx Txn) (room : ℕ) (p k v q j : Bytes)
        → put B tx room p k v ≡ ok tx'
        → room < length k
        → 0 < length j
        → length j ≤ max_key_size
        → bucket_get B tx' q j
          ≡ (if bytes_eq (p ++ k) (q ++ j) then some (some v) else bucket_get B tx q j)
    unfolding bucket_get add_prefix
    get-put tx tx' room p k v q j h r n m =
        let (t, e, same, open_db, a, b) = put-ok tx tx' room p k v h in
        let e' : set tx.badger_tx own (p ++ k) (insert_prefix_length v (length p)) ≡ ok t =
          subst (λ o. set tx.badger_tx o (p ++ k) (insert_prefix_length v (length p)) ≡ ok t)
            (appended-own room k r) e in
        let got : get t (q ++ j) ≡ (
            if bytes_eq (p ++ k) (q ++ j)
            then ok (record {
              key = p ++ k;
              value = ok (insert_prefix_length v (length p));
              user_meta = 0;
            })
            else get tx.badger_tx (q ++ j)) =
          get-set tx.badger_tx t (p ++ k) (insert_prefix_length v (length p)) (q ++ j) e' in
        rw same (elim (Bool-cases (bytes_eq (p ++ k) (q ++ j))) [
          | inl x ↦ ground (arith, got, x)
          | inr x ↦ ground (arith, got, x)
        ])

    bucket_delete-ok :
        (tx tx' : Tx Txn) (room : ℕ) (p k : Bytes)
        → bucket_delete B tx room p k ≡ ok tx'
        → 0 < length k
        → ((t : Txn) × (delete tx.badger_tx (appended B room k) (p ++ k) ≡ ok t)
            × (tx' ≡ record tx { badger_tx = t }))
          ⊎ ((delete tx.badger_tx (appended B room k) (p ++ k) ≡ err key_not_found) × (tx' ≡ tx))
    unfolding bucket_delete add_prefix
    bucket_delete-ok tx tx' room p k h n =
        elim (Result-cases (delete tx.badger_tx (appended B room k) (p ++ k))) [
          | inl (t, e) ↦ inl (t, e, ground (arith, e))
          | inr (key_not_found, e) ↦ inr (e, ground (arith, e))
          | inr (e, b) ↦ absurd (ground (arith, b))
        ]

    -- A new nested bucket is open with the string of the bucket and the key as its prefix; the
    -- transaction holds its mark, and nothing else changed.
    pub create_bucket-ok :
        (tx tx' : Tx Txn) (p k b : Bytes)
        → create_bucket B tx p k ≡ ok (tx', b)
        → (b ≡ p ++ k)
          × (tx.closed ≡ false)
          × (0 < length k)
          × (length k ≤ max_key_size)
          × (t : Txn) × (set_with_meta tx.badger_tx
                (p ++ k)
                (insert_prefix_length [] (length p))
                meta_bucket
              ≡ ok t)
          × (tx' ≡ record tx { badger_tx = t })
    unfolding create_bucket nested add_prefix
    create_bucket-ok tx tx' p k b h = elim (Result-cases (get tx.badger_tx (p ++ k))) [
      | inl (i, e) ↦ absurd (ground (arith, e))
      | inr (x, e) ↦
          elim (Result-cases (
            set_with_meta tx.badger_tx (p ++ k) (insert_prefix_length [] (length p)) meta_bucket)) [
              | inl (t, s) ↦ (
                ground (arith, e, s),
                ground (arith, e, s),
                ground (arith, e, s),
                ground (arith, e, s),
                t,
                s,
                ground (arith, e, s),
              )
              | inr (y, s) ↦ absurd (ground (arith, e, s))
            ]
    ]

    -- After a `CreateBucket` that succeeds, the bucket's prefix is its parent's with the key
    -- added, `NestedReadWriteBucket` finds it with that prefix, `CreateBucketIfNotExists` returns
    -- it and changes nothing, and a second `CreateBucket` fails as the bucket exists.
    pub create_bucket-nested :
        (tx tx' : Tx Txn) (p k b : Bytes)
        → create_bucket B tx p k ≡ ok (tx', b)
        → (b ≡ p ++ k)
          × (nested_read_write_bucket B tx' p k
              ≡ some (record tx' { buckets = tx'.buckets ++ b ∷ [] }, b))
          × (create_bucket_if_not_exists B tx' p k ≡ ok (tx', b))
          × (create_bucket B tx' p k ≡ err exist)
    unfolding create_bucket create_bucket_if_not_exists nested nested_read_write_bucket add_prefix
    create_bucket-nested tx tx' p k b h =
        let (prefix, open_db, n, m, t, e, same) = create_bucket-ok tx tx' p k b h in
        let got : get t (p ++ k) ≡ (
            if bytes_eq (p ++ k) (p ++ k)
            then ok (record {
              key = p ++ k;
              value = ok (insert_prefix_length [] (length p));
              user_meta = meta_bucket;
            })
            else get tx.badger_tx (p ++ k)) =
          laws.get-set_with_meta tx.badger_tx t (p ++ k) (insert_prefix_length [] (length p))
            meta_bucket (p ++ k) e in
        let eq : bytes_eq (p ++ k) (p ++ k) ≡ true = bytes_eq_refl (p ++ k) in
        rw (same, prefix)
          (refl, ground (arith, got, eq), ground (arith, got, eq), ground (arith, got, eq))

    -- After a `Delete` that succeeds, on a bucket whose prefix has no room behind it for the key, `Get` gives nil for it, and for
    -- a key that makes another string with its bucket's prefix what it gave before.
    pub get-bucket_delete :
        (tx tx' : Tx Txn) (room : ℕ) (p k q j : Bytes)
        → bucket_delete B tx room p k ≡ ok tx'
        → room < length k
        → bucket_get B tx' q j
          ≡ (if bytes_eq (p ++ k) (q ++ j) then some none else bucket_get B tx q j)
    unfolding bucket_get add_prefix
    get-bucket_delete tx tx' room p k q j h r =
        elim (bucket_delete-ok tx tx' room p k h (omega (arith, r))) [
          | inl (t, e, same) ↦
              let got : get t (q ++ j) ≡ (
                  if bytes_eq (p ++ k) (q ++ j)
                  then err key_not_found
                  else get tx.badger_tx (q ++ j)) =
                get-delete tx.badger_tx t (p ++ k) (q ++ j)
                  (subst (λ o. delete tx.badger_tx o (p ++ k) ≡ ok t) (appended-own room k r) e) in
              rw same (elim (Bool-cases (bytes_eq (p ++ k) (q ++ j))) [
                | inl x ↦ ground (arith, got, x)
                | inr x ↦ ground (arith, got, x)
              ])
          | inr (e, same) ↦ rw same (elim (Bool-cases (bytes_eq (p ++ k) (q ++ j))) [
            | inl x ↦
                let missing : get tx.badger_tx (q ++ j) ≡ err key_not_found =
                  subst (λ z. get tx.badger_tx z ≡ err key_not_found)
                    (eq_of_bytes_eq (p ++ k) (q ++ j) x)
                    (laws.get-delete_missing tx.badger_tx (appended B room k) (p ++ k) e) in
                ground (arith, missing, x)
            | inr x ↦ ground (arith, x)
          ])
        ]
