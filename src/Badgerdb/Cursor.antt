-- ===== src/Badgerdb/Cursor.antt =====
-- badgerdb/db.go: the cursor over a bucket. The iterators walk the items that they saw when they
-- were made; `rest` are those from the iterator's item on. A result of none is a panic, also that of
-- an iterator at its end that is asked for its item; a pair of none is (nil, nil).
use btclibwallet.Prelude.{
  Bool, Option, none, some, List, [], ◌∷◌, Result, ok, err, if◌then◌else◌, drop, ◌==◌,
}
use btclibwallet.Prelude.Bytes.{Bytes, bytes_eq, has_prefix}
use btclibwallet.Prelude.Bytes.Order.{bytes_lt, seek}
use btclibwallet.Errors.{Kind, invalid}
use btclibwallet.Badgerdb.Badger.{shared, Badger, Item, kind_of}
use btclibwallet.Badgerdb.Keys.{add_prefix, slice_to, meta_bucket}
use btclibwallet.Badgerdb.Bucket.{entry_value}

pub record Cursor : Type 0 where
  pub closed : Bool
  pub prefix : Bytes
  pub items : List Item
  -- The reverse iterator's, from the last key to the first.
  pub back_items : List Item
  pub rest : List Item
  pub ck : Option Bytes

abbrev pub Pair : Type 0
Pair = Option (Bytes × Option Bytes)

abbrev pub Answer : Type 0
Answer = Option (Cursor × Pair)

abbrev pub at_rest : Cursor → List Item → Cursor
at_rest c is = record c { rest = is }

-- From the iterator's item on: the first item that is the bucket's own, for which the code calls
-- Next until the prefix ends.
unfoldable pub land : Cursor → List Item → Answer
land c [] = some (at_rest c [], none)
land c (i ∷ is) =
    let here' = record c { rest = i ∷ is; ck = some i.key } in
    let later = land here' is in
    if has_prefix i.key c.prefix
    then elim i.value [
      | err e ↦ some (here', none)
      | ok [] ↦ none
      | ok (n ∷ v) ↦ elim (slice_to n i.key) [
        | none ↦ none
        | some q ↦
            if bytes_eq q c.prefix
            then some (here', some (drop n i.key, entry_value i v))
            else later
      ]
    ]
    else some (at_rest c (i ∷ is), none)

-- At the prefix, past the bucket's own item.
unfoldable pub land_first : Cursor → List Item → Answer
land_first c [] = none
land_first c (i ∷ is) = if bytes_eq c.prefix i.key then land c is else land c (i ∷ is)

unfoldable pub first : Cursor → Answer
first c =
    if c.closed then some (c, none) else land_first c (seek (λ (i : Item). i.key) c.prefix c.items)

unfoldable pub next : Cursor → Answer
next c = if c.closed then some (c, none) else elim c.ck [
  | none ↦ land_first c (seek (λ (i : Item). i.key) c.prefix c.items)
  | some k ↦ elim c.rest [ [] ↦ none | i ∷ is ↦ land c is ]
]

-- A nil key is none.
unfoldable pub seek_key : Cursor → Option Bytes → Answer
seek_key c none = first c
seek_key c (some k) = if c.closed then some (c, none) else elim (add_prefix c.prefix k) [
  | err e ↦ some (c, none)
  | ok at_key ↦ land c (seek (λ (i : Item). i.key) at_key c.items)
]

-- The loop of Last stops at an error of a value, or ends with the last item that it took.
pub data LastRun : Type 0 where
  stopped : List Item → LastRun
  ended : List Item → Option Item → LastRun

-- It looks for the stamp's prefix in the cursor's old key, a nil key being empty.
abbrev pub old_key : Cursor → Bytes
old_key c = elim c.ck [ none ↦ [] | some k ↦ k ]

unfoldable pub last_loop : Cursor → List Item → Option Item → Option LastRun
last_loop c [] best = some (ended [] best)
last_loop c (i ∷ is) best =
    let skip = last_loop c is best in
    let take_it = last_loop c is (some i) in
    if has_prefix i.key c.prefix
    then (if bytes_eq c.prefix i.key then skip else elim i.value [
      | err e ↦ some (stopped (i ∷ is))
      | ok [] ↦ none
      | ok (n ∷ v) ↦ elim (slice_to n (old_key c)) [
        | none ↦ none
        | some q ↦ if bytes_eq q c.prefix then take_it else skip
      ]
    ])
    else some (ended (i ∷ is) best)

unfoldable pub take_last : Cursor → Item → Answer
take_last c i = elim i.value [
  | err e ↦ some (c, none)
  | ok [] ↦ none
  | ok (n ∷ v) ↦ elim (slice_to n i.key) [
    | none ↦ none
    | some q ↦ some (record c { ck = some i.key }, some (drop n i.key, entry_value i v))
  ]
]

unfoldable pub last : Cursor → Answer
last c =
    if c.closed
    then some (c, none)
    else elim (last_loop c (seek (λ (i : Item). i.key) c.prefix c.items) none) [
      | none ↦ none
      | some (stopped is) ↦ some (at_rest c is, none)
      | some (ended is none) ↦ some (at_rest c is, none)
      | some (ended is (some i)) ↦ take_last (at_rest c is) i
    ]

-- `Seek` of the reverse iterator: from the last item that is not above the key.
unfoldable pub seek_back : Bytes → List Item → List Item
seek_back k [] = []
seek_back k (i ∷ is) = let rest = seek_back k is in if bytes_lt k i.key then rest else i ∷ is

unfoldable pub step_back : Cursor → Option (List Item)
step_back c = elim c.ck [
  | none ↦ elim (seek_back c.prefix c.back_items) [
    | [] ↦ none
    | i ∷ is ↦ if bytes_eq c.prefix i.key then some is else some (i ∷ is)
  ]
  | some k ↦ elim (seek_back k c.back_items) [ [] ↦ none | i ∷ is ↦ some is ]
]

unfoldable pub prev_at : Cursor → Item → Answer
prev_at c i =
    let moved = at_rest c (seek (λ (j : Item). j.key) i.key c.items) in
    if has_prefix i.key c.prefix
    then elim i.value [
      | err e ↦ some (moved, none)
      | ok [] ↦ none
      | ok (n ∷ v) ↦ elim (slice_to n i.key) [
        | none ↦ none
        | some q ↦
            if bytes_eq q c.prefix
            then some (record moved { ck = some i.key }, some (drop n i.key, entry_value i v))
            else some (moved, none)
      ]
    ]
    else some (moved, none)

unfoldable pub prev : Cursor → Answer
prev c =
    if c.closed
    then some (c, none)
    else elim (step_back c) [ none ↦ none | some [] ↦ some (c, none) | some (i ∷ is) ↦ prev_at c i ]

module _ (B : Badger) where
  open B use {Txn, delete}

  -- The current item is deleted if it is a key of the prefix, and no bucket.
  unfoldable pub cursor_delete : Txn → Cursor → Result Kind Txn
  cursor_delete t c = if c.closed then err invalid else elim c.rest [
    | [] ↦ ok t
    | i ∷ is ↦
        if has_prefix i.key c.prefix
        then (if i.user_meta == meta_bucket
            then err invalid
            else elim (delete t shared i.key) [ ok t' ↦ ok t' | err e ↦ err (kind_of e) ])
        else ok t
  ]
