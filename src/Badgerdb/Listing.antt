-- ===== src/Badgerdb/Listing.antt =====
-- What `ForEach` calls its function on: the bucket's own keys and nested buckets, in order.
use btclibwallet.Prelude.{
  ◌<◌, ◌≡◌, ◌↔◌, refl, sym, ap, subst, ◌∙◌, true, false, Option, none, some, List, [], ◌∷◌, ◌++◌,
  ok, err, if◌then◌else◌, length, take, drop, take-length-append, length-take, take_append_drop,
  drop-length-append, length-append, arith, inl, inr, Bool-cases, Option-cases, Elem, here, there,
  Elem-cases, All,
}
use btclibwallet.Prelude.Bytes.{
  Bytes, bytes_eq, bytes_eq_refl, eq_of_bytes_eq, ne_of_length_ne, has_prefix, has_prefix-append,
}
use btclibwallet.Prelude.Bytes.Order.{range, range_sound, range-Elem}
use btclibwallet.Errors.{Kind}
use btclibwallet.Badgerdb.Badger.{Badger, Item, IsBadger}
use btclibwallet.Badgerdb.Keys.{slice_to}
use btclibwallet.Badgerdb.Transaction.{Tx}
use btclibwallet.Badgerdb.Bucket.{for_each, for_each_items, entry_value}
use btclibwallet.Badgerdb.Loops.{ItemStamped}
use btclibwallet.Badgerdb.Stamp.{IsStamped, items-stamped, range-stamped}

-- The function called on each pair, up to its first error.
unfoldable pub run :
    {S : Type 0}
    → (Bytes → Option Bytes → S → S × Option Kind)
    → List (Bytes × Option Bytes)
    → S
    → S × Option Kind
run fn [] s = (s, none)
run fn ((k, v) ∷ es) s =
    let (s', e) = fn k v s in
    let rest = run fn es s' in elim e [ none ↦ rest | some x ↦ (s', some x) ]

-- The key and value of an item that is the bucket's own.
unfoldable pub child : Bytes → Item → Option (Bytes × Option Bytes)
child p i = if bytes_eq i.key p then none else elim i.value [
  | err e ↦ none
  | ok [] ↦ none
  | ok (n ∷ v) ↦ if bytes_eq (take n i.key) p then some (drop n i.key, entry_value i v) else none
]

unfoldable pub children : Bytes → List Item → List (Bytes × Option Bytes)
children p [] = []
children p (i ∷ is) =
    let rest = children p is in elim (child p i) [ none ↦ rest | some e ↦ e ∷ rest ]

bytes_eq-append_nil : (p : Bytes) → bytes_eq (p ++ []) p ≡ true
unfolding bytes_eq
bytes_eq-append_nil [] = refl
bytes_eq-append_nil (x ∷ p) = ground (arith, bytes_eq-append_nil p)

proper : (p c k : Bytes) → k ≡ p ++ c → bytes_eq k p ≡ false → 0 < length c
proper p [] k h n = absurd (ground (arith, ap (λ z. bytes_eq z p) h, bytes_eq-append_nil p))
proper p (x ∷ c) k h n = omega arith

module _ (B : Badger) where
  open B use {Txn, get, items}

  for_each_items-run :
      {S : Type 0} (fn : Bytes → Option Bytes → S → S × Option Kind) (p : Bytes) (is : List Item)
      (s : S)
      → All ItemStamped is
      → for_each_items B fn p is s ≡ some (run fn (children p is) s)
  unfolding for_each_items children child run slice_to
  for_each_items-run fn p [] s a = refl
  for_each_items-run {S} fn p (i ∷ is) s ((n, v, e, b), as') =
      let step : (s' : S) → for_each_items B fn p is s' ≡ some (run fn (children p is) s') =
        λ s'. for_each_items-run fn p is s' as' in
      elim (Bool-cases (bytes_eq i.key p)) [
        | inl y ↦ ground (arith, y, step s)
        | inr y ↦ elim (Bool-cases (bytes_eq (take n i.key) p)) [
          | inr z ↦ ground (arith, e, y, z, step s)
          | inl z ↦ elim (Option-cases (fn (drop n i.key) (entry_value i v) s).1) [
            | inl q ↦ ground (arith, e, y, z, q, step (fn (drop n i.key) (entry_value i v) s).0)
            | inr (x, q) ↦ ground (arith, e, y, z, q)
          ]
        ]
      ]

  -- An entry of the bucket: a key of at least one byte under its prefix, stamped with the length
  -- of that prefix.
  abbrev pub OwnEntry : Txn → Bytes → Bytes → Option Bytes → Type 0
  OwnEntry t p c v =
      (0 < length c)
      × (i : Item) × (get t (p ++ c) ≡ ok i)
      × (w : Bytes) × (i.value ≡ ok (length p ∷ w))
      × (v ≡ entry_value i w)

  Elem-children-of :
      (p : Bytes) (is : List Item) (i : Item) (e : Bytes × Option Bytes)
      → Elem i is
      → child p i ≡ some e
      → Elem e (children p is)
  unfolding children
  Elem-children-of p [] i e m h = elim m [ ]
  Elem-children-of p (_ ∷ is) i e here h = rw (h, children) here
  Elem-children-of p (j ∷ is) i e (there m) h = elim (Option-cases (child p j)) [
    | inl q ↦ rw (q, children) (Elem-children-of p is i e m h)
    | inr (x, q) ↦ rw (q, children) (there (Elem-children-of p is i e m h))
  ]

  children-Elem :
      (p : Bytes) (is : List Item) (e : Bytes × Option Bytes)
      → Elem e (children p is)
      → (i : Item) × Elem i is × (child p i ≡ some e)
  unfolding children
  children-Elem p [] e m = elim m [ ]
  children-Elem p (j ∷ is) e m = elim (Option-cases (child p j)) [
    | inl q ↦ let (i, a, b) = children-Elem p is e (rw (q, children) at m) in (i, there a, b)
    | inr (x, q) ↦ elim (Elem-cases (rw (q, children) at m)) [
      | inl same ↦ (j, here, q ∙ ap some same)
      | inr r ↦ let (i, a, b) = children-Elem p is e r in (i, there a, b)
    ]
  ]

  module _ (laws : IsBadger B) where
    child-own :
        (p c w : Bytes) (i : Item)
        → 0 < length c
        → i.key ≡ p ++ c
        → i.value ≡ ok (length p ∷ w)
        → child p i ≡ some (c, entry_value i w)
    unfolding child
    child-own p c w i n k v =
        let ne : bytes_eq (p ++ c) p ≡ false =
          ne_of_length_ne (p ++ c) p (λ q. omega (arith, q, length-append p c)) in
        let t : take (length p) (p ++ c) ≡ p = take-length-append p c in
        let d : drop (length p) (p ++ c) ≡ c = drop-length-append p c in
        ground (arith, ne, t, d, k, v, bytes_eq_refl p)

    own-child :
        (p : Bytes) (i : Item) (c : Bytes) (v : Option Bytes)
        → ItemStamped i
        → child p i ≡ some (c, v)
        → (0 < length c)
          × (i.key ≡ p ++ c)
          × (w : Bytes) × (i.value ≡ ok (length p ∷ w))
          × (v ≡ entry_value i w)
    unfolding child
    own-child p i c v (n, w, e, a) h =
        let z : bytes_eq (take n i.key) p ≡ true = ground (arith, e) in
        let t : take n i.key ≡ p = eq_of_bytes_eq (take n i.key) p z in
        let cut : i.key ≡ p ++ drop n i.key =
          sym (take_append_drop n i.key) ∙ ap (λ x. x ++ drop n i.key) t in
        let dc : drop n i.key ≡ c = ground (arith, e) in
        let len : n ≡ length p = sym (length-take n i.key a) ∙ ap length t in
        (
          proper p c i.key (cut ∙ ap (λ x. p ++ x) dc) (ground (arith, e)),
          cut ∙ ap (λ x. p ++ x) dc,
          w,
          e ∙ ap (λ m. ok (m ∷ w)) len,
          ground (arith, e),
        )

    -- What is listed is exactly the bucket's own: (c, v) is among the children of the items under the
    -- prefix just if `Get` finds an item at prefix and c, for a c of at least one byte, whose value is
    -- stamped with the prefix's length; v is nil for a nested bucket and else the value. This wants
    -- a table where each stored value begins with a byte that cuts its key.
    pub Elem-children :
        (t : Txn) (p c : Bytes) (v : Option Bytes)
        → IsStamped B t
        → Elem (c, v) (children p (range (λ i. i.key) p (items t))) ↔ OwnEntry t p c v
    Elem-children t p c v s = (
      λ m.
          let (i, a, b) = children-Elem p (range (λ i. i.key) p (items t)) (c, v) m in
          let el : Elem i (items t) = (range_sound (λ i. i.key) p (items t) a).0 in
          let (n, k, w, x, y) = own-child p i c v (items-stamped B laws t s i el) b in
          (n, i, subst (λ z. get t z ≡ ok i) k ((laws.elem-items t i).0 el), w, x, y),
      λ (n, i, g, w, x, y).
          let k : i.key ≡ p ++ c = laws.key-get t (p ++ c) i g in
          let el : Elem i (items t) =
            (laws.elem-items t i).1 (subst (λ z. get t z ≡ ok i) (sym k) g) in
          Elem-children-of p (range (λ i. i.key) p (items t)) i (c, v)
            (range-Elem (λ i. i.key) p (items t) (laws.items-IsSorted t) el
              (subst (λ z. has_prefix z p ≡ true) (sym k) (has_prefix-append p c)))
            (child-own p c w i n k x ∙ ap (λ u. some (c, u)) (sym y)),
    )

    pub for_each-children :
        {S : Type 0} (fn : Bytes → Option Bytes → S → S × Option Kind) (tx : Tx Txn) (p : Bytes)
        (s : S)
        → tx.closed ≡ false
        → IsStamped B tx.badger_tx
        → for_each B fn tx p s
          ≡ some (run fn (children p (range (λ i. i.key) p (items tx.badger_tx))) s)
    unfolding for_each
    for_each-children fn tx p s c st = rw c (
        for_each_items-run fn p (range (λ i. i.key) p (items tx.badger_tx)) s
          (range-stamped B laws (items tx.badger_tx) p (items-stamped B laws tx.badger_tx st)))

    -- `ForEach` on an open database, in a table where each stored value begins with a byte that
    -- cuts its key, does not panic: it calls its function on a list of pairs up to the first error
    -- that the function returns, which it returns. A pair (c, v) is in that list just if c has at
    -- least one byte and `Get` of badger finds an item at prefix and c whose value is stamped with
    -- the prefix's length; v is nil for a nested bucket and else the value after the stamp.
    pub for_each-run :
        {S : Type 0} (fn : Bytes → Option Bytes → S → S × Option Kind) (tx : Tx Txn) (p : Bytes)
        (s : S)
        → tx.closed ≡ false
        → IsStamped B tx.badger_tx
        → (es : List (Bytes × Option Bytes)) × (for_each B fn tx p s ≡ some (run fn es s))
          × ((c : Bytes) (v : Option Bytes) → Elem (c, v) es ↔ OwnEntry tx.badger_tx p c v)
    for_each-run fn tx p s c st = (
      children p (range (λ i. i.key) p (items tx.badger_tx)),
      for_each-children fn tx p s c st,
      λ k v. Elem-children tx.badger_tx p k v st,
    )
