-- ===== src/Badgerdb/Delete.antt =====
-- What is left of a bucket after it was deleted.
use btclibwallet.Prelude.{
  ℕ, ◌<◌, ◌≡◌, ◌≢◌, sym, ap, subst, ◌∙◌, true, false, some, List, [], ◌∷◌, ◌++◌, ok, leb, length,
  take, length-take, length-append, arith, inl, inr, Result-cases, Bool-cases, Elem, here, there,
}
use btclibwallet.Prelude.Bytes.{bytes_eq_iff, Bytes, bytes_eq, bytes_eq-false, ne_of_length_ne}
use btclibwallet.Prelude.Bytes.Order.{range, range_sound}
use btclibwallet.Badgerdb.Badger.{shared, Badger, Item, IsBadger}
use btclibwallet.Badgerdb.Keys.{slice_to}
use btclibwallet.Badgerdb.Transaction.{
  Tx, delete_quietly, delete_items, belongs, delete_top_level_bucket,
}
use btclibwallet.Badgerdb.Bucket.{drop_bucket}
use btclibwallet.Badgerdb.Loops.{delete_items-step, drop_bucket-ok, delete_top_level_bucket-ok}
use btclibwallet.Badgerdb.Stamp.{IsStamped}

module _ (B : Badger) where
  open B use {Txn, get, delete, items, committed}

  module _ (laws : IsBadger B) where
    get-delete_quietly :
        (t : Txn) (k j : Bytes) → bytes_eq k j ≡ false → get (delete_quietly B t k) j ≡ get t j
    unfolding delete_quietly
    get-delete_quietly t k j n = elim (Result-cases (delete t shared k)) [
      | inl (t', e) ↦ elim (laws.delete-cases t t' shared k j e) [
        | inl (q, got) ↦ absurd (ground (arith, n, (bytes_eq_iff k j).1 q))
        | inr got ↦ ground (arith, e, got)
      ]
      | inr (x, e) ↦ ground (arith, e)
    ]

    -- The loop leaves a key alone that no item has which belongs to the owner.
    delete_items-keeps :
        (p : Bytes) (is : List Item) (t t' : Txn) (j : Bytes)
        → ((i : Item) → Elem i is → i.key ≡ j → belongs B p i ≢ some true)
        → delete_items B p is t ≡ some t'
        → get t' j ≡ get t j
    unfolding delete_items
    delete_items-keeps p [] t t' j h e = ap (λ x. get x j) (ground arith)
    delete_items-keeps p (i ∷ is) t t' j h e =
        let later : (k : Item) → Elem k is → k.key ≡ j → belongs B p k ≢ some true =
          λ k m q. h k (there m) q in
        elim (delete_items-step B p i is t t' e) [
          | inl (b, r) ↦
              delete_items-keeps p is (delete_quietly B t i.key) t' j later r
              ∙ get-delete_quietly t i.key j (bytes_eq-false i.key j (λ q. h i here q b))
          | inr (b, r) ↦ delete_items-keeps p is t t' j later r
        ]

    belongs-stamped :
        (p : Bytes) (i : Item) (n : ℕ) (v : Bytes)
        → i.value ≡ ok (n ∷ v)
        → n ≢ length p
        → belongs B p i ≢ some true
    unfolding belongs slice_to
    belongs-stamped p i n v e ne h = elim (Bool-cases (leb n (length i.key))) [
      | inr l ↦ absurd (ground (arith, e, l))
      | inl l ↦
          let z : bytes_eq (take n i.key) p ≡ false =
            ne_of_length_ne (take n i.key) p
              (λ q. ne (sym (length-take n i.key (ground arith)) ∙ q)) in
          absurd (ground (arith, e, l, z))
    ]

    -- A dropped nested bucket keeps what is in it. Where the key of the bucket and the key in it
    -- have at least one byte and each committed item at the string of the three is stamped with
    -- the length of the dropped bucket's prefix, a `DeleteNestedBucket` that succeeds leaves
    -- what is stored there as it was.
    pub drop_bucket-keeps_contents :
        (tx tx' : Tx Txn) (p k c : Bytes)
        → 0 < length k
        → 0 < length c
        → ((i : Item)
            → Elem i (committed (delete_quietly B tx.badger_tx (p ++ k)))
            → i.key ≡ (p ++ k) ++ c
            → (v : Bytes) × (i.value ≡ ok (length (p ++ k) ∷ v)))
        → drop_bucket B tx p k ≡ some (ok tx')
        → get tx'.badger_tx ((p ++ k) ++ c) ≡ get tx.badger_tx ((p ++ k) ++ c)
    drop_bucket-keeps_contents tx tx' p k c nk nc st h =
        let (t, e, same, w) = drop_bucket-ok B tx tx' p k h in
        let quiet : Txn = delete_quietly B tx.badger_tx (p ++ k) in
        let kept : get t ((p ++ k) ++ c) ≡ get quiet ((p ++ k) ++ c) =
          delete_items-keeps p (range (λ i. i.key) (p ++ k) (committed quiet)) quiet t
            ((p ++ k) ++ c)
            (λ i m q.
              let (v, x) = st i (range_sound (λ i. i.key) (p ++ k) (committed quiet) m).0 q in
              belongs-stamped p i (length (p ++ k)) v x (λ y. omega (arith, y, length-append p k)))
            e in
        rw same (
          kept
          ∙ get-delete_quietly tx.badger_tx (p ++ k) ((p ++ k) ++ c) (
              ne_of_length_ne (p ++ k) ((p ++ k) ++ c)
                (λ q. omega (arith, q, length-append (p ++ k) c))))

    -- Whether badger refuses deletes or not, a `DeleteTopLevelBucket` that succeeds leaves every
    -- key as it was that is not the bucket's and at which no item is stamped with the length of
    -- the bucket's key, if each stored value begins with a byte that cuts its key.
    pub delete_top_level_bucket-keeps :
        (tx tx' : Tx Txn) (k j : Bytes)
        → IsStamped B tx.badger_tx
        → k ≢ j
        → ((i : Item) (w : Bytes) → get tx.badger_tx j ≡ ok i → i.value ≢ ok (length k ∷ w))
        → delete_top_level_bucket B tx k ≡ some (ok tx')
        → get tx'.badger_tx j ≡ get tx.badger_tx j
    delete_top_level_bucket-keeps tx tx' k j st ne other h =
        let (t, e, same, o) = delete_top_level_bucket-ok B tx tx' k h in
        let quiet : Txn = delete_quietly B tx.badger_tx k in
        let before : get quiet j ≡ get tx.badger_tx j =
          get-delete_quietly tx.badger_tx k j (bytes_eq-false k j ne) in
        rw same (
          delete_items-keeps k (range (λ i. i.key) k (items quiet)) quiet t j
            (λ i m q b.
              let el : Elem i (items quiet) = (range_sound (λ i. i.key) k (items quiet) m).0 in
              let g : get tx.badger_tx j ≡ ok i =
                sym before ∙ subst (λ z. get quiet z ≡ ok i) q ((laws.elem-items quiet i).0 el) in
              let (n, v, x, a) = st j i g in
              belongs-stamped k i n v x (λ y. other i v g (x ∙ ap (λ m. ok (m ∷ v)) y)) b)
            e
          ∙ before)
