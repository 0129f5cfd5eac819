-- ===== src/Spv/GetData.antt =====
-- `getTransactionsByHashes` and `receiveGetData` of spv/sync.go: the transactions that a peer asks
-- for. The hashes to look up are a slice, an array with a length, that is shortened in place while
-- the code ranges over it; a result of none is a panic.
use btclibwallet.Prelude.{
  ℕ, zero, suc, ◌+◌, ◌-◌, Bool, true, false, Option, none, some, List, [], ◌∷◌, ◌++◌, map,
  if◌then◌else◌, ◌==◌, ltb, length, take, drop, get_elem?,
}
use btclibwallet.Errors.{Error, with_kind, not_exist}
use btclibwallet.Spv.{Hash, Tx}

pub record Slice : Type 0 where
  pub arr : List Hash
  pub len : ℕ

abbrev pub contents : Slice → List Hash
contents s = take s.len s.arr

-- `append(s[:i], s[i+1:]...)`, for an i within the array.
unfoldable pub remove_at : ℕ → Slice → Option Slice
remove_at i s =
    if ltb i s.len
    then some (record {
      arr = take i s.arr ++ (drop (suc i) (take s.len s.arr) ++ drop (s.len - 1) s.arr);
      len = s.len - 1;
    })
    else none

-- `for index, hash := range txHashes`, with k elements to go of the length at the start.
unfoldable pub remove_found : Hash → ℕ → ℕ → Slice → Option Slice
remove_found h zero i s = some s
remove_found h (suc k) i s = elim (get_elem? s.arr i) [
  | none ↦ none
  | some x ↦
      if x == h
      then elim (remove_at i s) [ none ↦ none | some s' ↦ remove_found h k (i + 1) s' ]
      else remove_found h k (i + 1) s
]

unfoldable pub remove_all : List Tx → Slice → Option Slice
remove_all [] s = some s
remove_all (tx ∷ txs) s = elim (remove_found tx.hash s.len 0 s) [
  | none ↦ none
  | some s' ↦ remove_all txs s'
]

-- A panic, an error, or the transactions and the hashes that are not found.
pub data Reply : Type 0 where
  panic : Reply
  failed : Error → Reply
  reply : List Tx → List Hash → Reply

abbrev is_not_exist : Error → Bool
is_not_exist (with_kind not_exist t) = true
is_not_exist e = false

unfoldable pub failure : Option Error → Option Error
failure none = none
failure (some e) = if is_not_exist e then none else some e

-- A wallet answers with transactions and perhaps an error.
abbrev pub Lookup : Type 0
Lookup = List Hash → List Tx × Option Error

unfoldable pub look_up : List Lookup → List Tx → Slice → Reply
look_up [] found s = reply found (contents s)
look_up (w ∷ ws) found s = elim (failure (w (contents s)).1) [
  | some e ↦ failed e
  | none ↦ elim (remove_all (w (contents s)).0 s) [
    | none ↦ panic
    | some s' ↦
        let rest = look_up ws (found ++ (w (contents s)).0) s' in
        if s'.len == 0 then reply (found ++ (w (contents s)).0) [] else rest
  ]
]

unfoldable pub get_transactions_by_hashes : List Lookup → List Hash → Reply
get_transactions_by_hashes ws [] = reply [] []
get_transactions_by_hashes ws (h ∷ hs) =
    look_up ws [] (record { arr = h ∷ hs; len = suc (length hs) })

pub data InvType : Type 0 where
  inv_type_tx inv_type_block inv_type_other : InvType

-- The transactions to look up, and what was not announced or is no transaction.
unfoldable pub split_request :
    (Hash → Bool) → List (InvType × Hash) → List Hash × List (InvType × Hash)
split_request sent [] = ([], [])
split_request sent ((inv_type_tx, h) ∷ invs) =
    let r = split_request sent invs in
    if sent h then (h ∷ r.0, r.1) else (r.0, (inv_type_tx, h) ∷ r.1)
split_request sent ((t, h) ∷ invs) = let r = split_request sent invs in (r.0, (t, h) ∷ r.1)

pub data Message : Type 0 where
  tx_message : Tx → Message
  not_found_message : List (InvType × Hash) → Message

-- The messages that answer a request, while the context is not done; none for a panic.
unfoldable pub answer_messages : List Tx → List (InvType × Hash) → List Message
answer_messages txs [] = map tx_message txs
answer_messages txs (i ∷ is) = map tx_message txs ++ not_found_message (i ∷ is) ∷ []

unfoldable pub answer_get_data :
    List Lookup → (Hash → Bool) → List (InvType × Hash) → Option (List Message)
answer_get_data ws sent invs =
    let r = split_request sent invs in
    elim (get_transactions_by_hashes ws r.0) [
      | panic ↦ none
      | failed e ↦ some []
      | reply txs missing ↦ some (answer_messages txs (r.1 ++ map (λ h. (inv_type_tx, h)) missing))
    ]
