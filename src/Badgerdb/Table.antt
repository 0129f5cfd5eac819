-- ===== src/Badgerdb/Table.antt =====
-- A table that behaves as badger's documentation says: a list of items, sorted by key. It shows
-- that the laws of `IsBadger` can hold, and runs the tests.
use btclibwallet.Prelude.{
  ◌⊎◌, ℕ, ◌≡◌, refl, sym, ap, subst, ◌∙◌, true, false, List, [], ◌∷◌, Result, ok, err,
  if◌then◌else◌, arith, inl, inr, Bool-cases, Elem, here, there, All, All-elem,
}
use btclibwallet.Prelude.Bytes.{Bytes, bytes_eq, bytes_eq_refl, eq_of_bytes_eq}
use btclibwallet.Prelude.Bytes.Order.{IsSorted, bytes_lt}
use btclibwallet.Badgerdb.Badger.{Badger, BadgerError, Item, IsBadger, key_not_found}

bytes_lt_trans : (a b c : Bytes) → bytes_lt a b ≡ true → bytes_lt b c ≡ true → bytes_lt a c ≡ true
unfolding bytes_lt
bytes_lt_trans [] [] c h k = absurd (ground arith)
bytes_lt_trans (x ∷ a) [] c h k = absurd (ground arith)
bytes_lt_trans [] (y ∷ b) [] h k = absurd (ground arith)
bytes_lt_trans [] (y ∷ b) (z ∷ c) h k = refl
bytes_lt_trans (x ∷ a) (y ∷ b) [] h k = absurd (ground arith)
bytes_lt_trans (x ∷ a) (y ∷ b) (z ∷ c) h k = ground (arith, bytes_lt_trans a b c)

bytes_lt-total : (a b : Bytes) → bytes_lt a b ≡ false → bytes_eq a b ≡ false → bytes_lt b a ≡ true
unfolding bytes_lt bytes_eq
bytes_lt-total [] [] h k = absurd (ground arith)
bytes_lt-total (x ∷ a) [] h k = refl
bytes_lt-total [] (y ∷ b) h k = absurd (ground arith)
bytes_lt-total (x ∷ a) (y ∷ b) h k = ground (arith, bytes_lt-total a b)

bytes_lt_irrefl : (a b : Bytes) → bytes_eq a b ≡ true → bytes_lt a b ≡ false
unfolding bytes_lt bytes_eq
bytes_lt_irrefl [] [] h = refl
bytes_lt_irrefl (x ∷ a) [] h = absurd (ground arith)
bytes_lt_irrefl [] (y ∷ b) h = absurd (ground arith)
bytes_lt_irrefl (x ∷ a) (y ∷ b) h = ground (arith, bytes_lt_irrefl a b)

abbrev pub key_of : Item → Bytes
key_of i = i.key

unfoldable pub lookup : List Item → Bytes → Result BadgerError Item
lookup [] k = err key_not_found
lookup (x ∷ xs) k = let rest = lookup xs k in if bytes_eq x.key k then ok x else rest

unfoldable pub insert : Item → List Item → List Item
insert i [] = i ∷ []
insert i (x ∷ xs) =
    let rest = insert i xs in
    if bytes_lt i.key x.key then i ∷ x ∷ xs else if bytes_eq i.key x.key then i ∷ xs else x ∷ rest

unfoldable pub remove : Bytes → List Item → List Item
remove k [] = []
remove k (x ∷ xs) = let rest = remove k xs in if bytes_eq x.key k then rest else x ∷ rest

abbrev Above : Bytes → List Item → Type 0
Above k = All (λ y. bytes_lt k y.key ≡ true)

Above-trans : (a b : Bytes) (xs : List Item) → bytes_lt a b ≡ true → Above b xs → Above a xs
Above-trans a b [] l h = tt
Above-trans a b (x ∷ xs) l (h, hs) = (bytes_lt_trans a b x.key l h, Above-trans a b xs l hs)

insert-Above :
    (k : Bytes) (i : Item) (xs : List Item)
    → bytes_lt k i.key ≡ true
    → Above k xs
    → Above k (insert i xs)
unfolding insert
insert-Above k i [] l h = (l, tt)
insert-Above k i (x ∷ xs) l (h, hs) = elim (Bool-cases (bytes_lt i.key x.key)) [
  | inl a ↦ rw a (l, (h, hs))
  | inr a ↦ elim (Bool-cases (bytes_eq i.key x.key)) [
    | inl b ↦ rw (a, b) (l, hs)
    | inr b ↦ rw (a, b) (h, insert-Above k i xs l hs)
  ]
]

pub insert-IsSorted :
    (i : Item) (xs : List Item) → IsSorted key_of xs → IsSorted key_of (insert i xs)
unfolding insert
insert-IsSorted i [] s = (tt, tt)
insert-IsSorted i (x ∷ xs) (s, ss) = elim (Bool-cases (bytes_lt i.key x.key)) [
  | inl a ↦ rw a ((a, Above-trans i.key x.key xs a s), (s, ss))
  | inr a ↦ elim (Bool-cases (bytes_eq i.key x.key)) [
    | inl b ↦ rw (a, b) (subst (λ k. Above k xs) (sym (eq_of_bytes_eq i.key x.key b)) s, ss)
    | inr b ↦
        rw (a, b)
          (insert-Above x.key i xs (bytes_lt-total i.key x.key a b) s, insert-IsSorted i xs ss)
  ]
]

remove-Above : (k j : Bytes) (xs : List Item) → Above k xs → Above k (remove j xs)
unfolding remove
remove-Above k j [] h = tt
remove-Above k j (x ∷ xs) (h, hs) = elim (Bool-cases (bytes_eq x.key j)) [
  | inl b ↦ rw b (remove-Above k j xs hs)
  | inr b ↦ rw b (h, remove-Above k j xs hs)
]

pub remove-IsSorted :
    (j : Bytes) (xs : List Item) → IsSorted key_of xs → IsSorted key_of (remove j xs)
unfolding remove
remove-IsSorted j [] s = tt
remove-IsSorted j (x ∷ xs) (s, ss) = elim (Bool-cases (bytes_eq x.key j)) [
  | inl b ↦ rw b (remove-IsSorted j xs ss)
  | inr b ↦ rw b (remove-Above x.key j xs s, remove-IsSorted j xs ss)
]

bytes_eq_both : (a b c : Bytes) → bytes_eq a c ≡ true → bytes_eq b c ≡ true → bytes_eq a b ≡ true
bytes_eq_both a b c h k =
    subst (λ z. bytes_eq a z ≡ true) (eq_of_bytes_eq a c h ∙ sym (eq_of_bytes_eq b c k))
      (bytes_eq_refl a)

lookup-insert :
    (i : Item) (xs : List Item) (j : Bytes)
    → lookup (insert i xs) j ≡ (if bytes_eq i.key j then ok i else lookup xs j)
unfolding insert lookup
lookup-insert i [] j = refl
lookup-insert i (x ∷ xs) j = elim (Bool-cases (bytes_eq i.key x.key)) [
  | inl b ↦
      let same : i.key ≡ x.key = eq_of_bytes_eq i.key x.key b in
      ground (arith, b, ap (λ k. bytes_eq k j) same, bytes_lt_irrefl i.key x.key b)
  | inr b ↦ ground (arith, b, bytes_eq_both i.key x.key j, lookup-insert i xs j)
]

lookup-remove :
    (k : Bytes) (xs : List Item) (j : Bytes)
    → lookup (remove k xs) j ≡ (if bytes_eq k j then err key_not_found else lookup xs j)
unfolding remove lookup
lookup-remove k [] j = ground arith
lookup-remove k (x ∷ xs) j = ground (
  arith,
  ap (λ z. bytes_eq z j),
  eq_of_bytes_eq x.key k,
  bytes_eq_both x.key k j,
  lookup-remove k xs j,
)

pub lookup-Elem :
    (xs : List Item) (k : Bytes) (i : Item) → lookup xs k ≡ ok i → Elem i xs × (i.key ≡ k)
unfolding lookup
lookup-Elem [] k i h = absurd (ground arith)
lookup-Elem (x ∷ xs) k i h = elim (Bool-cases (bytes_eq x.key k)) [
  | inl b ↦
      let same : x ≡ i = ground (arith, b) in
      subst (λ y. Elem y (x ∷ xs) × (y.key ≡ k)) same (here, eq_of_bytes_eq x.key k b)
  | inr b ↦ let (a, c) = lookup-Elem xs k i (ground (arith, b)) in (there a, c)
]

pub Elem-lookup :
    (xs : List Item) (i : Item) → IsSorted key_of xs → Elem i xs → lookup xs i.key ≡ ok i
unfolding lookup
Elem-lookup [] i s m = elim m [ ]
Elem-lookup (_ ∷ xs) i (s, ss) here = ground (arith, bytes_eq_refl i.key)
Elem-lookup (x ∷ xs) i (s, ss) (there m) =
    let lt : bytes_lt x.key i.key ≡ true = All-elem (λ y. bytes_lt x.key y.key ≡ true) m s in
    ground (arith, lt, bytes_lt_irrefl x.key i.key, Elem-lookup xs i ss m)

abbrev pub Table : Type 0
Table = (xs : List Item) × IsSorted key_of xs

unfoldable pub write : Table → Bytes → Bytes → ℕ → Table
write (xs, s) k v m =
    let i : Item = record { key = k; value = ok v; user_meta = m } in
    (insert i xs, insert-IsSorted i xs s)

-- The table, with these items as the committed ones.
abbrev pub table : List Item → Badger
table saved = record {
  Txn = Table;
  get = λ t k. lookup t.0 k;
  set_with_meta = λ t k v m. ok (write t k v m);
  set = λ t m k v. ok (write t k v 0);
  delete = λ t m k. ok (remove k t.0, remove-IsSorted k t.0 t.1);
  items = λ t. t.0;
  committed = λ t. saved;
}

abbrev ok_table : Table → Result BadgerError Table
ok_table t = ok t

ok-inj : {a b : Table} → ok_table a ≡ ok_table b → a ≡ b
ok-inj h = cc

if-cases :
    (k j : Bytes) (a b : Result BadgerError Item) {r : Result BadgerError Item}
    → r ≡ (if bytes_eq k j then a else b)
    → ((k ≡ j) × (r ≡ a)) ⊎ (r ≡ b)
if-cases k j a b h = elim (Bool-cases (bytes_eq k j)) [
  | inl y ↦ inl (eq_of_bytes_eq k j y, ground (arith, h, y))
  | inr n ↦ inr (ground (arith, h, n))
]

if-own :
    (k : Bytes) (a b : Result BadgerError Item) {r : Result BadgerError Item}
    → r ≡ (if bytes_eq k k then a else b)
    → r ≡ a
if-own k a b h = ground (arith, h, bytes_eq_refl k)

pub table-IsBadger : (saved : List Item) → IsBadger (table saved)
unfolding write
table-IsBadger saved = record {
  get-set_with_meta = λ t t' k v m j h.
      ap (λ x. lookup x.0 j) (sym (ok-inj h))
      ∙ lookup-insert (record { key = k; value = ok v; user_meta = m }) t.0 j;
  set-cases = λ t t' m k v j h. if-cases k j _ _ (
      ap (λ x. lookup x.0 j) (sym (ok-inj h))
      ∙ lookup-insert (record { key = k; value = ok v; user_meta = 0 }) t.0 j);
  set-own = λ t t' k v h. if-own k _ _ (
      ap (λ x. lookup x.0 k) (sym (ok-inj h))
      ∙ lookup-insert (record { key = k; value = ok v; user_meta = 0 }) t.0 k);
  delete-cases = λ t t' m k j h.
      if-cases k j _ _ (ap (λ x. lookup x.0 j) (sym (ok-inj h)) ∙ lookup-remove k t.0 j);
  delete-own =
      λ t t' k h. if-own k _ _ (ap (λ x. lookup x.0 k) (sym (ok-inj h)) ∙ lookup-remove k t.0 k);
  get-delete_missing = λ t m k h. absurd (ground arith);
  key-get = λ t k i h. (lookup-Elem t.0 k i h).1;
  elem-items = λ t i. (Elem-lookup t.0 i t.1, λ h. (lookup-Elem t.0 i.key i h).0);
  items-IsSorted = λ t. t.1;
}
