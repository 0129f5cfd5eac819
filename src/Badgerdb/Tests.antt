-- ===== src/Badgerdb/Tests.antt =====
-- Buckets over a small table.
use btclibwallet.Prelude.{
  ◌≡◌, ◌≢◌, ◌↔◌, ◌≤◌, refl, sym, subst, All, All-elem, true, false, Option, none, some, List, [],
  ◌∷◌, ◌++◌, ok, err, arith, Elem, length,
}
use btclibwallet.Prelude.Bytes.{Bytes, bytes_eq, has_prefix}
use btclibwallet.Prelude.Bytes.Order.{bytes_lt, seek, while_prefix, IsSorted}
use btclibwallet.Errors.{Kind, exist}
use btclibwallet.Badgerdb.Badger.{Item}
use btclibwallet.Badgerdb.Transaction.{
  Tx, delete_quietly, delete_items, belongs, delete_top_level_bucket, delete_top_level, forget,
}
use btclibwallet.Badgerdb.Keys.{add_prefix, slice_to}
use btclibwallet.Badgerdb.Bucket.{
  bucket_get, put, create_bucket, create_bucket_if_not_exists, nested, nested_read_write_bucket,
  delete_nested_bucket, for_each, for_each_items, drop_bucket, drop_bucket_items,
}
use btclibwallet.Badgerdb.Loops.{ItemStamped}
use btclibwallet.Badgerdb.Stamp.{IsStamped}
use btclibwallet.Badgerdb.Access.{get-put, create_bucket-nested}
use btclibwallet.Badgerdb.Steps.{done, then_step, by_put, Steps-IsStamped, stamped-no_panic}
use btclibwallet.Badgerdb.Listing.{run, OwnEntry, for_each-run}
use btclibwallet.Badgerdb.Delete.{drop_bucket-keeps_contents, delete_top_level_bucket-keeps}
use btclibwallet.Badgerdb.Table.{
  Table, table, table-IsBadger, lookup, remove, write, remove-IsSorted, lookup-Elem, Elem-lookup,
  key_of,
}

-- The bucket w at the top, in it the key a and the nested bucket n, and in that the key b.
abbrev pub top_item : Item
top_item = record { key = 119 ∷ []; value = ok (1 ∷ []); user_meta = 5 }

abbrev pub a_item : Item
a_item = record { key = 119 ∷ 97 ∷ []; value = ok (1 ∷ 7 ∷ []); user_meta = 0 }

abbrev pub n_item : Item
n_item = record { key = 119 ∷ 110 ∷ []; value = ok (1 ∷ []); user_meta = 5 }

abbrev pub b_item : Item
b_item = record { key = 119 ∷ 110 ∷ 98 ∷ []; value = ok (2 ∷ 8 ∷ []); user_meta = 0 }

pub stored-IsSorted : IsSorted key_of (top_item ∷ a_item ∷ n_item ∷ b_item ∷ [])
unfolding bytes_lt
stored-IsSorted = ((refl, (refl, (refl, tt))), ((refl, (refl, tt)), ((refl, tt), (tt, tt))))

abbrev wm : Bytes
wm = 119 ∷ 109 ∷ []

abbrev wc : Bytes
wc = 119 ∷ 99 ∷ []

abbrev wa : Bytes
wa = 119 ∷ 97 ∷ []

abbrev pub stored : Table
stored = (top_item ∷ a_item ∷ n_item ∷ b_item ∷ [], stored-IsSorted)

abbrev pub tx : Tx Table
tx = record {
  badger_tx = stored;
  closed = false;
  buckets = [];
  writable = true;
  is_discarded = false;
}

abbrev pub saved : List Item
saved = stored.0

pub stored-IsStamped : IsStamped (table saved) stored
stored-IsStamped k i h =
    let (e, q) = lookup-Elem stored.0 k i h in
    let (n, v, x, a) = All-elem ItemStamped e all_stamped in
    (n, v, x, subst (λ z. n ≤ length z) q a)
  where
    all_stamped : All ItemStamped stored.0
    all_stamped = (
      (1, [], refl, omega arith),
      (
        (1, 7 ∷ [], refl, omega arith),
        ((1, [], refl, omega arith), ((2, 8 ∷ [], refl, omega arith), tt)),
      ),
    )

abbrev with_c : Tx Table
with_c = record tx { badger_tx = write stored wc (1 ∷ 9 ∷ []) 0 }

-- After Put(w, "c", 9), Get(w, "c").
get-put_example : bucket_get (table saved) with_c (119 ∷ []) (99 ∷ []) ≡ some (some (9 ∷ []))
unfolding put add_prefix bytes_eq
get-put_example =
    get-put (table saved) (table-IsBadger saved) tx with_c 0 (119 ∷ []) (99 ∷ []) (9 ∷ [])
      (119 ∷ []) (99 ∷ []) refl (omega arith) (omega arith) (omega arith)

abbrev with_bucket : Tx Table
with_bucket = record tx { badger_tx = write stored wm (1 ∷ []) 5 }

create_bucket-nested_example :
    (wm ≡ wm)
    × (nested_read_write_bucket (table saved) with_bucket (119 ∷ []) (109 ∷ [])
        ≡ some (record with_bucket { buckets = wm ∷ [] }, 119 ∷ 109 ∷ []))
    × (create_bucket_if_not_exists (table saved) with_bucket (119 ∷ []) (109 ∷ [])
        ≡ ok (with_bucket, wm))
    × (create_bucket (table saved) with_bucket (119 ∷ []) (109 ∷ []) ≡ err exist)
unfolding create_bucket nested add_prefix lookup bytes_eq
create_bucket-nested_example =
    create_bucket-nested (table saved) (table-IsBadger saved) tx with_bucket (119 ∷ []) (109 ∷ [])
      wm refl

abbrev without_a : Tx Table
without_a = record tx { badger_tx = (remove wa stored.0, remove-IsSorted wa stored.0 stored.1) }

Steps-IsStamped_example : IsStamped (table saved) (write stored wc (1 ∷ 9 ∷ []) 0)
unfolding put add_prefix
Steps-IsStamped_example =
    Steps-IsStamped (table saved) (table-IsBadger saved) tx with_c
      (then_step (by_put {tx = tx} {tx' = with_c} 8 (119 ∷ []) (99 ∷ []) (9 ∷ []) refl) done)
      stored-IsStamped

stamped-no_panic_example :
    ((p k : Bytes) → bucket_get (table saved) tx p k ≢ none)
    × ((k : Bytes) → delete_top_level_bucket (table saved) tx k ≢ none)
    × ((p : Bytes) (k : Option Bytes) → delete_nested_bucket (table saved) tx p k ≢ none)
stamped-no_panic_example =
    stamped-no_panic (table saved) (table-IsBadger saved) tx stored-IsStamped
      (λ t i e. stored-IsStamped i.key i (Elem-lookup saved i stored-IsSorted e))

abbrev collect : Bytes → Option Bytes → List Bytes → List Bytes × Option Kind
collect k v s = (s ++ k ∷ [], none)

for_each-run_example :
    (es : List (Bytes × Option Bytes)) × (for_each (table saved) collect tx (119 ∷ []) []
      ≡ some (run collect es []))
    × ((c : Bytes) (v : Option Bytes)
        → Elem (c, v) es ↔ OwnEntry (table saved) stored (119 ∷ []) c v)
for_each-run_example =
    for_each-run (table saved) (table-IsBadger saved) collect tx (119 ∷ []) [] refl stored-IsStamped

-- The bucket w lists a and n, and not b.
listed : for_each (table saved) collect tx (119 ∷ []) [] ≡ some ((97 ∷ []) ∷ (110 ∷ []) ∷ [], none)
unfolding for_each for_each_items bytes_eq seek while_prefix bytes_lt has_prefix slice_to
listed = refl

abbrev drop_n : Table → Table
drop_n t = (remove (119 ∷ 110 ∷ []) t.0, remove-IsSorted (119 ∷ 110 ∷ []) t.0 t.1)

abbrev drop_a : Table → Table
drop_a t = (remove wa t.0, remove-IsSorted wa t.0 t.1)

abbrev drop_w : Table → Table
drop_w t = (remove (119 ∷ []) t.0, remove-IsSorted (119 ∷ []) t.0 t.1)

-- The loop meets the key n among the committed items, and deletes it again.
abbrev without_n : Tx Table
without_n = record tx { badger_tx = drop_n (drop_n stored) }

abbrev b_key : Bytes
b_key = 119 ∷ 110 ∷ 98 ∷ []

-- After DeleteNestedBucket(w, "n") the key b is still there.
drop_bucket-keeps_contents_example : lookup without_n.badger_tx.0 b_key ≡ lookup stored.0 b_key
unfolding drop_bucket drop_bucket_items delete_quietly delete_items belongs add_prefix slice_to
    lookup bytes_eq seek while_prefix bytes_lt has_prefix
drop_bucket-keeps_contents_example =
    drop_bucket-keeps_contents (table saved) (table-IsBadger saved) tx without_n (119 ∷ [])
      (110 ∷ []) (98 ∷ []) (omega arith) (omega arith)
      (λ i m q.
        let e : lookup saved b_key ≡ ok i =
          subst (λ k. lookup saved k ≡ ok i) q (Elem-lookup saved i stored-IsSorted m) in
        let same : b_item ≡ i = cc in (8 ∷ [], subst (λ y. y.value ≡ ok (2 ∷ 8 ∷ [])) same refl))
      refl

abbrev nothing : Tx Table
nothing = record tx { badger_tx = drop_n (drop_a (drop_w stored)) }

delete_top_level_bucket-keeps_example : lookup nothing.badger_tx.0 b_key ≡ lookup stored.0 b_key
unfolding delete_top_level_bucket delete_top_level delete_quietly delete_items belongs slice_to
    lookup bytes_eq seek while_prefix bytes_lt has_prefix remove forget
delete_top_level_bucket-keeps_example =
    delete_top_level_bucket-keeps (table saved) (table-IsBadger saved) tx nothing (119 ∷ []) b_key
      stored-IsStamped (λ q. absurd (ground (arith, q)))
      (λ i w e h.
        let same : b_item ≡ i = cc in
        let both : b_item.value ≡ ok (1 ∷ w) = subst (λ y. y.value ≡ ok (1 ∷ w)) (sym same) h in
        absurd (ground (arith, both)))
      refl
