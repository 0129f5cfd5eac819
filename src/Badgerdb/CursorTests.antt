-- ===== src/Badgerdb/CursorTests.antt =====
-- Runs of the cursor of badgerdb at a concrete table.
use btclibwallet.Prelude.{◌≡◌, refl, false, Option, none, some, List, [], ◌∷◌}
use btclibwallet.Prelude.Bytes.{Bytes, bytes_eq, has_prefix}
use btclibwallet.Prelude.Bytes.Order.{bytes_lt, seek}
use btclibwallet.Errors.{Kind}
use btclibwallet.Badgerdb.Keys.{slice_to}
use btclibwallet.Badgerdb.Bucket.{for_each}
use btclibwallet.Badgerdb.Table.{table, table-IsBadger, lookup}
use btclibwallet.Badgerdb.Listing.{run}
use btclibwallet.Badgerdb.Cursor.{
  Cursor, first, next, last, prev, land, land_first, last_loop, take_last, prev_at, step_back,
  seek_back,
}
use btclibwallet.Badgerdb.Walk.{walk_on, first-for_each}
use btclibwallet.Badgerdb.Tests.{top_item, a_item, n_item, b_item, saved, tx, stored-IsStamped}

abbrev cursor : Cursor
cursor = record {
  closed = false;
  prefix = 119 ∷ [];
  items = saved;
  back_items = b_item ∷ n_item ∷ a_item ∷ top_item ∷ [];
  rest = [];
  ck = none;
}

first-for_each_example :
    (es : List (Bytes × Option Bytes)) × (walk_on 5 (first cursor) ≡ some es)
    × ((S : Type 0) (fn : Bytes → Option Bytes → S → S × Option Kind) (s : S)
        → for_each (table saved) fn tx (119 ∷ []) s ≡ some (run fn es s))
unfolding lookup bytes_eq
first-for_each_example =
    first-for_each (table saved) (table-IsBadger saved) tx cursor top_item refl refl refl
      stored-IsStamped refl

-- The walk meets the key a with its value and the bucket n.
walked : walk_on 5 (first cursor) ≡ some ((97 ∷ [], some (7 ∷ [])) ∷ (110 ∷ [], none) ∷ [])
unfolding walk_on first next land land_first seek bytes_lt bytes_eq has_prefix slice_to
walked = refl

-- A cursor that has not moved panics on Last.
last_fresh : last cursor ≡ none
unfolding last last_loop seek bytes_lt bytes_eq has_prefix slice_to
last_fresh = refl

abbrev at_a : Cursor
at_a = record cursor { ck = some (119 ∷ 97 ∷ []); rest = a_item ∷ n_item ∷ b_item ∷ [] }

-- A cursor that has moved gives the last entry, the bucket n.
last_moved :
    last at_a ≡ some (record at_a { ck = some (119 ∷ 110 ∷ []); rest = [] }, some (110 ∷ [], none))
unfolding last last_loop take_last seek bytes_lt bytes_eq has_prefix slice_to
last_moved = refl

-- Before the first entry a, Prev gives the bucket's own item, with an empty key.
prev_a : prev at_a ≡ some (record at_a { ck = some (119 ∷ []); rest = saved }, some ([], none))
unfolding prev prev_at step_back seek_back seek bytes_lt bytes_eq has_prefix slice_to
prev_a = refl
