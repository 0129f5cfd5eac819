-- ===== src/Badgerdb/Stamp.antt =====
-- The invariant of the flat table: what is stored begins with a byte that cuts its key. Where it
-- holds no operation panics, and every operation keeps it.
use btclibwallet.Prelude.{
  sym, ◌∙◌, ℕ, ◌≤◌, ◌%◌, ◌≡◌, refl, subst, Bool, some, List, [], ◌∷◌, ◌++◌, ok, if◌then◌else◌,
  length, length-append, arith, inl, inr, Result-cases, All-of_Elem, Bool-cases, Elem, All,
}
use btclibwallet.Prelude.Bytes.{Bytes, bytes_eq, eq_of_bytes_eq}
use btclibwallet.Prelude.Bytes.Order.{range, range_sound}
use btclibwallet.Badgerdb.Badger.{Memory, shared, Badger, Item, IsBadger, key_not_found}
use btclibwallet.Badgerdb.Keys.{add_prefix, meta_bucket, insert_prefix_length}
use btclibwallet.Badgerdb.Transaction.{Tx, delete_quietly, delete_items, new_bucket}
use btclibwallet.Badgerdb.Bucket.{appended, put, nested}
use btclibwallet.Badgerdb.Access.{put-ok}
use btclibwallet.Badgerdb.Loops.{ItemStamped, belongs-total, delete_items-step}

module _ (B : Badger) where
  open B use {Txn, get, set, set_with_meta, delete, items}

  abbrev pub IsStamped : Txn → Type 0
  IsStamped t =
      (k : Bytes) (i : Item)
      → get t k ≡ ok i
      → (n : ℕ) × (v : Bytes) × (i.value ≡ ok (n ∷ v)) × (n ≤ length k)

  byte_le : (n : ℕ) (p k : Bytes) → n ≡ length p % 256 → n ≤ length (p ++ k)
  byte_le n p k h = omega (arith, h, length-append p k)

  module _ (laws : IsBadger B) where
    pub delete-IsStamped :
        (t t' : Txn) (m : Memory) (k : Bytes) → IsStamped t → delete t m k ≡ ok t' → IsStamped t'
    delete-IsStamped t t' m k s e j i h = elim (laws.delete-cases t t' m k j e) [
      | inl (q, got) ↦ absurd (ground (arith, got, h))
      | inr got ↦ s j i (sym got ∙ h)
    ]

    pub delete_quietly-IsStamped :
        (t : Txn) (k : Bytes) → IsStamped t → IsStamped (delete_quietly B t k)
    unfolding delete_quietly
    delete_quietly-IsStamped t k s j i h = elim (Result-cases (delete t shared k)) [
      | inl (t', e) ↦ delete-IsStamped t t' shared k s e j i (ground (arith, e, h))
      | inr (x, e) ↦ s j i (ground (arith, e))
    ]

    pub put-IsStamped :
        (tx tx' : Tx Txn) (room : ℕ) (p k v : Bytes)
        → IsStamped tx.badger_tx
        → put B tx room p k v ≡ ok tx'
        → IsStamped tx'.badger_tx
    put-IsStamped tx tx' room p k v s h j i g =
        let (t, e, same, open_db, a, b) = put-ok B tx tx' room p k v h in
        let here : get t j ≡ ok i = rw same at g in
        elim (laws.set-cases tx.badger_tx t (appended B room k) (p ++ k)
          (insert_prefix_length v (length p)) j e) [
            | inl (x, got) ↦ (
              length p % 256,
              v,
              ground (arith, got, here),
              subst (λ z. length p % 256 ≤ length z) x (byte_le (length p % 256) p k refl),
            )
            | inr got ↦ s j i (ground (arith, got, here))
          ]

    set_with_meta-IsStamped :
        (t t' : Txn) (k : Bytes) (n m : ℕ)
        → n ≤ length k
        → IsStamped t
        → set_with_meta t k (n ∷ []) m ≡ ok t'
        → IsStamped t'
    set_with_meta-IsStamped t t' k n m a s e j i g =
        let got : get t' j ≡ (
            if bytes_eq k j
            then ok (record { key = k; value = ok (n ∷ []); user_meta = m })
            else get t j) =
          laws.get-set_with_meta t t' k (n ∷ []) m j e in
        elim (Bool-cases (bytes_eq k j)) [
          | inl x ↦
              (n, [], ground (arith, got, g, x), subst (λ z. n ≤ length z) (eq_of_bytes_eq k j x) a)
          | inr x ↦ s j i (ground (arith, got, g, x))
        ]

    pub new_bucket-IsStamped :
        (t t' : Txn) (k : Bytes) → IsStamped t → new_bucket B t k ≡ ok t' → IsStamped t'
    unfolding new_bucket
    new_bucket-IsStamped t t' k s h = elim (Result-cases (get t k)) [
      | inl (i, e) ↦ subst IsStamped (ground (arith, e)) s
      | inr (key_not_found, e) ↦
          elim (Result-cases (set_with_meta t k ((length k % 256) ∷ []) meta_bucket)) [
            | inl (t'', e') ↦
                set_with_meta-IsStamped t t' k (length k % 256) meta_bucket (omega arith) s
                  (ground (arith, e, e'))
            | inr (x, e') ↦ absurd (ground (arith, e, e'))
          ]
      | inr (x, e) ↦ absurd (ground (arith, e))
    ]

    pub nested-IsStamped :
        (tx tx' : Tx Txn) (p k b : Bytes) (c : Bool)
        → IsStamped tx.badger_tx
        → nested B tx p k c ≡ ok (tx', b)
        → IsStamped tx'.badger_tx
    unfolding nested add_prefix
    nested-IsStamped tx tx' p k b c s h = elim (Result-cases (get tx.badger_tx (p ++ k))) [
      | inl (i, e) ↦ subst IsStamped (ground (arith, e)) s
      | inr (x, e) ↦
          elim (Result-cases
            (set_with_meta tx.badger_tx (p ++ k) ((length p % 256) ∷ []) meta_bucket)) [
              | inl (t, e') ↦
                  set_with_meta-IsStamped tx.badger_tx tx'.badger_tx (p ++ k) (length p % 256)
                    meta_bucket (byte_le (length p % 256) p k refl) s (ground (arith, e, e'))
              | inr (y, e') ↦ absurd (ground (arith, e, e'))
            ]
    ]

    pub delete_items-IsStamped :
        (p : Bytes) (is : List Item) (t t' : Txn)
        → IsStamped t
        → delete_items B p is t ≡ some t'
        → IsStamped t'
    unfolding delete_items
    delete_items-IsStamped p [] t t' s h = subst IsStamped (ground (arith)) s
    delete_items-IsStamped p (i ∷ is) t t' s h = elim (delete_items-step B p i is t t' h) [
      | inl (e, r) ↦
          delete_items-IsStamped p is (delete_quietly B t i.key) t'
            (delete_quietly-IsStamped t i.key s) r
      | inr (e, r) ↦ delete_items-IsStamped p is t t' s r
    ]

    pub delete_items-total :
        (p : Bytes) (is : List Item) (t : Txn)
        → All ItemStamped is
        → (t' : Txn) × (delete_items B p is t ≡ some t')
    unfolding delete_items
    delete_items-total p [] t a = (t, refl)
    delete_items-total p (i ∷ is) t (a, as') =
        let go : (t' : Txn) × (delete_items B p is (delete_quietly B t i.key) ≡ some t') =
          delete_items-total p is (delete_quietly B t i.key) as' in
        let on : (t' : Txn) × (delete_items B p is t ≡ some t') = delete_items-total p is t as' in
        let (b, e) = belongs-total B p i a in
        elim (Bool-cases b) [
          | inl y ↦ (go.0, ground (arith, e, y, go.1))
          | inr n ↦ (on.0, ground (arith, e, n, on.1))
        ]

    pub items-stamped : (t : Txn) → IsStamped t → (i : Item) → Elem i (items t) → ItemStamped i
    items-stamped t s i e = s i.key i ((laws.elem-items t i).0 e)

    pub range-stamped :
        (xs : List Item) (p : Bytes)
        → ((i : Item) → Elem i xs → ItemStamped i)
        → All ItemStamped (range (λ i. i.key) p xs)
    range-stamped xs p h =
        All-of_Elem ItemStamped (range (λ i. i.key) p xs)
          (λ i e. h i (range_sound (λ i. i.key) p xs e).0)
