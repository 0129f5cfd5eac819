-- ===== src/Badgerdb/Walk.antt =====
-- badgerdb/db.go: a walk with a cursor, from First by Next until nil, meets what ForEach meets.
use btclibwallet.Prelude.{
  ℕ, zero, suc, ◌≡◌, ◌<◌, ◌≤◌, ◌∙◌, refl, ap, sym, subst, true, false, Option, none, some, List, [],
  ◌∷◌, ok, take, length, arith, Bool-cases, inl, inr, All, All-elem, All-of_Elem, Elem, here, there,
}
use btclibwallet.Prelude.Bytes.{Bytes, bytes_eq, has_prefix, bytes_eq_refl, eq_of_bytes_eq}
use btclibwallet.Prelude.Bytes.Order.{bytes_lt, seek, while_prefix, range, IsSorted}
use btclibwallet.Errors.{Kind}
use btclibwallet.Badgerdb.Badger.{Badger, Item, IsBadger}
use btclibwallet.Badgerdb.Transaction.{Tx}
use btclibwallet.Badgerdb.Stamp.{IsStamped, items-stamped}
use btclibwallet.Badgerdb.Keys.{slice_to}
use btclibwallet.Badgerdb.Bucket.{for_each}
use btclibwallet.Badgerdb.Loops.{ItemStamped}
use btclibwallet.Badgerdb.Listing.{child, children, run, for_each-children}
use btclibwallet.Badgerdb.Cursor.{Cursor, Answer, land, land_first, first, next, last_loop, last}

-- `for k, v := c.First(); k != nil; k, v = c.Next()`, on fuel; none is a panic or the end of the fuel.
unfoldable pub walk_on : ℕ → Answer → Option (List (Bytes × Option Bytes))
walk_on k none = none
walk_on k (some (c, none)) = some []
walk_on zero (some (c, some e)) = none
walk_on (suc k) (some (c, some e)) = elim (walk_on k (next c)) [
  | none ↦ none
  | some es ↦ some (e ∷ es)
]

-- The bucket's own item is not among those that follow.
abbrev IsPast : Bytes → List Item → Type 0
IsPast p is = All (λ (i : Item). bytes_eq i.key p ≡ false) is

abbrev IsOpen : Cursor → Type 0
IsOpen c = (c.closed ≡ false)

walk_on-land :
    (k : ℕ) (is : List Item) (c : Cursor)
    → IsOpen c
    → length is < k
    → All ItemStamped is
    → IsPast c.prefix is
    → walk_on k (land c is)
      ≡ some (children c.prefix (while_prefix (λ (i : Item). i.key) c.prefix is))
unfolding walk_on land next children child while_prefix slice_to
walk_on-land zero is c o l s a = absurd (omega (arith, l))
walk_on-land (suc k) [] c o l s a = refl
walk_on-land (suc k) (i ∷ is) c o l ((n, v, e, b), ss) (a, as') =
    let here' = record c { rest = i ∷ is; ck = some i.key } in
    let later = walk_on-land (suc k) is here' o (omega (arith, l)) ss as' in
    let after = walk_on-land k is here' o (omega (arith, l)) ss as' in
    elim (Bool-cases (has_prefix i.key c.prefix)) [
      | inr y ↦ ground (arith, y)
      | inl y ↦ elim (Bool-cases (bytes_eq (take n i.key) c.prefix)) [
        | inl z ↦ ground (arith, y, z, e, b, a, o, after)
        | inr z ↦ ground (arith, y, z, e, b, a, later)
      ]
    ]

bytes_lt_irrefl : (a : Bytes) → bytes_lt a a ≡ false
unfolding bytes_lt
bytes_lt_irrefl [] = refl
bytes_lt_irrefl (x ∷ xs) = ground (arith, bytes_lt_irrefl xs)

has_prefix_self : (a : Bytes) → has_prefix a a ≡ true
unfolding has_prefix
has_prefix_self [] = refl
has_prefix_self (x ∷ xs) = ground (arith, has_prefix_self xs)

-- Above p none is p.
above-IsPast :
    (p : Bytes) (is : List Item) → All (λ (i : Item). bytes_lt p i.key ≡ true) is → IsPast p is
above-IsPast p [] h = tt
above-IsPast p (i ∷ is) h = (
  elim (Bool-cases (bytes_eq i.key p)) [
    | inl y ↦
        absurd (ground (arith, h.0, bytes_lt_irrefl p, ap (bytes_lt p) (eq_of_bytes_eq i.key p y)))
    | inr n ↦ n
  ],
  above-IsPast p is h.1,
)

seek-stamped :
    (p : Bytes) (is : List Item)
    → All ItemStamped is
    → All ItemStamped (seek (λ (i : Item). i.key) p is)
unfolding seek
seek-stamped p [] s = tt
seek-stamped p (i ∷ is) s = elim (Bool-cases (bytes_lt i.key p)) [
  | inl y ↦ rw y (seek-stamped p is s.1)
  | inr n ↦ rw n s
]

length-seek : (p : Bytes) (is : List Item) → length (seek (λ (i : Item). i.key) p is) ≤ length is
unfolding seek
length-seek p [] = omega arith
length-seek p (i ∷ is) = elim (Bool-cases (bytes_lt i.key p)) [
  | inl y ↦ rw y (omega (arith, length-seek p is))
  | inr n ↦ rw n (omega arith)
]

-- Where the table has the bucket's own item, a seek finds it, and what is above it follows.
seek-own :
    (p : Bytes) (is : List Item) (o : Item)
    → IsSorted (λ (i : Item). i.key) is
    → Elem o is
    → o.key ≡ p
    → (later : List Item) × (j : Item) × (seek (λ (i : Item). i.key) p is ≡ j ∷ later)
      × (j.key ≡ p)
      × All (λ (i : Item). bytes_lt p i.key ≡ true) later
unfolding seek
seek-own p [] o s m e = elim m [ ]
seek-own p (_ ∷ is) o s here e =
    let low : bytes_lt o.key p ≡ false = ap (λ k. bytes_lt k p) e ∙ bytes_lt_irrefl p in
    (
      is,
      o,
      rw (seek, low) refl,
      e,
      subst (λ k. All (λ (x : Item). bytes_lt k x.key ≡ true) is) e s.0,
    )
seek-own p (i ∷ is) o s (there m) e =
    let below : bytes_lt i.key p ≡ true =
      subst (λ k. bytes_lt i.key k ≡ true) e
        (All-elem (λ (y : Item). bytes_lt i.key y.key ≡ true) m s.0) in
    let r = seek-own p is o s.1 m e in (r.0, r.1, rw (seek, below) r.2, r.3, r.4)

first-land :
    (c : Cursor) (j : Item) (later : List Item)
    → c.closed ≡ false
    → seek (λ (i : Item). i.key) c.prefix c.items ≡ j ∷ later
    → bytes_eq c.prefix j.key ≡ true
    → first c ≡ land c later
unfolding first land_first
first-land c j later o e y = ground (arith, o, e, y)

children-own :
    (p : Bytes) (j : Item) (later : List Item)
    → bytes_eq j.key p ≡ true
    → has_prefix j.key p ≡ true
    → children p (while_prefix (λ (i : Item). i.key) p (j ∷ later))
      ≡ children p (while_prefix (λ (i : Item). i.key) p later)
unfolding children child while_prefix
children-own p j later y h = ground (arith, y, h)

-- A walk with an open cursor lists the children of the items under its prefix.
first-children :
    (c : Cursor) (o : Item)
    → c.closed ≡ false
    → IsSorted (λ (i : Item). i.key) c.items
    → All ItemStamped c.items
    → Elem o c.items
    → o.key ≡ c.prefix
    → walk_on (suc (length c.items)) (first c)
      ≡ some (children c.prefix (range (λ (i : Item). i.key) c.prefix c.items))
first-children c o open' s st m e =
    let own = seek-own c.prefix c.items o s m e in
    let stamped = subst (All ItemStamped) own.2 (seek-stamped c.prefix c.items st) in
    let few = length-seek c.prefix c.items in
    let on =
      walk_on-land (suc (length c.items)) own.0 c open'
        (omega (arith, subst (λ l. length l ≤ length c.items) own.2 few)) stamped.1
        (above-IsPast c.prefix own.0 own.4) in
    let eq : bytes_eq c.prefix own.1.key ≡ true =
      ap (bytes_eq c.prefix) own.3 ∙ bytes_eq_refl c.prefix in
    let eq' : bytes_eq own.1.key c.prefix ≡ true =
      ap (λ k. bytes_eq k c.prefix) own.3 ∙ bytes_eq_refl c.prefix in
    let has : has_prefix own.1.key c.prefix ≡ true =
      ap (λ k. has_prefix k c.prefix) own.3 ∙ has_prefix_self c.prefix in
    ap (walk_on (suc (length c.items))) (first-land c own.1 own.0 open' own.2 eq)
    ∙ on
    ∙ ap some (
        sym (
          ap (λ l. children c.prefix (while_prefix (λ (i : Item). i.key) c.prefix l)) own.2
          ∙ children-own c.prefix own.1 own.0 eq' has))

module _ (B : Badger) (laws : IsBadger B) where
  open B use {Txn, get, items}

  -- A walk with a cursor of an open bucket, from First by Next until the nil pair, does not panic and
  -- ends within one step more than there are items, and it meets a list of pairs that is what
  -- ForEach calls its function on. This wants a table that has the bucket's own item and in which
  -- each stored value begins with a byte that cuts its key, and a cursor whose iterator walks the
  -- items of the transaction.
  pub first-for_each :
      (tx : Tx Txn) (c : Cursor) (o : Item)
      → tx.closed ≡ false
      → c.closed ≡ false
      → c.items ≡ items tx.badger_tx
      → IsStamped B tx.badger_tx
      → get tx.badger_tx c.prefix ≡ ok o
      → (es : List (Bytes × Option Bytes)) × (walk_on (suc (length c.items)) (first c) ≡ some es)
        × ((S : Type 0) (fn : Bytes → Option Bytes → S → S × Option Kind) (s : S)
            → for_each B fn tx c.prefix s ≡ some (run fn es s))
  first-for_each tx c o open' co same st g =
      let key : o.key ≡ c.prefix = laws.key-get tx.badger_tx c.prefix o g in
      let found : Elem o (items tx.badger_tx) =
        (laws.elem-items tx.badger_tx o).1 (subst (λ k. get tx.badger_tx k ≡ ok o) (sym key) g) in
      let back = sym same in
      (
        children c.prefix (range (λ (i : Item). i.key) c.prefix c.items),
        first-children c o co
            (subst (IsSorted (λ (i : Item). i.key)) back (laws.items-IsSorted tx.badger_tx))
            (subst (All ItemStamped) back
              (All-of_Elem ItemStamped (items tx.badger_tx) (items-stamped B laws tx.badger_tx st)))
            (subst (Elem o) back found) key,
        λ S fn s.
            for_each-children B laws fn tx c.prefix s open' st
            ∙ ap (λ l. some (run fn (children c.prefix (range (λ (i : Item). i.key) c.prefix l)) s))
                back,
      )

-- Last of a cursor that has not moved panics as soon as the bucket has an entry, or another bucket
-- has one under its prefix: it cuts the cursor's key, which is nil, at the stamp of the first item.
pub last-panics :
    (c : Cursor) (j i : Item) (is : List Item) (n : ℕ) (v : Bytes)
    → c.closed ≡ false
    → c.ck ≡ none
    → seek (λ (x : Item). x.key) c.prefix c.items ≡ j ∷ i ∷ is
    → has_prefix j.key c.prefix ≡ true
    → bytes_eq c.prefix j.key ≡ true
    → has_prefix i.key c.prefix ≡ true
    → bytes_eq c.prefix i.key ≡ false
    → i.value ≡ ok (suc n ∷ v)
    → last c ≡ none
unfolding last last_loop slice_to
last-panics c j i is n v o k e hj ej hi ei w = ground (arith, o, k, e, hj, ej, hi, ei, w)
