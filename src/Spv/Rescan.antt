-- ===== src/Spv/Rescan.antt =====
-- spv/rescan.go: which transactions of a block are the wallet's. The wallet's rescan filter and
-- dcrd's scripts and stake types are the parameter `Watch`; the entries of blockcf are a list.
use btclibwallet.Prelude.{
  ℕ, ◌+◌, Bool, true, false, Option, none, some, List, [], ◌∷◌, ◌++◌, ◌||◌, ◌==◌, ◌≡◌, ◌⊎◌, drop,
  length, if◌then◌else◌,
}
use btclibwallet.Prelude.Bytes.{Bytes}
use btclibwallet.Spv.{OutPoint, TxOut, Tx, Block, tree_regular, tree_stake, out_point_eq}

-- stake.DetermineTxType
pub data TxType : Type 0 where
  regular vote other_stake : TxType

pub record Watch : Type 1 where
  pub Filter : Type 0
  pub Address : Type 0
  pub Entry : Type 0
  -- wallet.RescanFilter
  pub exists_address : Filter → Address → Bool
  pub exists_unspent : Filter → OutPoint → Bool
  pub add_unspent : Filter → OutPoint → Filter
  pub new_rescan_filter : Filter
  pub add_address : Filter → Address → Filter
  -- what blockcf.Entries gets for an outpoint
  pub out_point_entry : OutPoint → Entry
  -- The entry for an address: its script, none where it has none.
  pub script_entry : Address → Option Entry
  -- ExtractPkScriptAddrs, none for an error
  pub extract_addrs : ℕ → Bytes → Option (List Address)
  pub determine_tx_type : Tx → TxType

-- The documented behaviour of wallet.RescanFilter: a set of addresses and a set of outpoints. An
-- address that was not added is there with one that was only if both have the same script.
pub record IsWatch (W : Watch) : Type 0 where
  pub exists_unspent-add_unspent :
      (f : W.Filter) (o p : OutPoint)
      → W.exists_unspent (W.add_unspent f o) p ≡ (out_point_eq o p || W.exists_unspent f p)
  pub exists_address-add_unspent :
      (f : W.Filter) (o : OutPoint) (a : W.Address)
      → W.exists_address (W.add_unspent f o) a ≡ W.exists_address f a
  pub exists_unspent-new : (o : OutPoint) → W.exists_unspent W.new_rescan_filter o ≡ false
  pub exists_address-new : (a : W.Address) → W.exists_address W.new_rescan_filter a ≡ false
  pub exists_unspent-add_address :
      (f : W.Filter) (a : W.Address) (o : OutPoint)
      → W.exists_unspent (W.add_address f a) o ≡ W.exists_unspent f o
  pub exists_address-add_address :
      (f : W.Filter) (a b : W.Address)
      → W.exists_address (W.add_address f a) b ≡ true
      → (W.script_entry b ≡ W.script_entry a) ⊎ (W.exists_address f b ≡ true)
  pub exists_address-added :
      (f : W.Filter) (a : W.Address) → W.exists_address (W.add_address f a) a ≡ true

-- The filter, the entries for compact filters, what was added to them, and the matches.
pub record Check (Filter Entry : Type 0) : Type 0 where
  pub filter : Filter
  pub filter_data : List Entry
  pub fadded : List Entry
  pub matches : List Tx

module _ (W : Watch) where
  open W use {
    Filter, Address, Entry, exists_address, exists_unspent, add_unspent, out_point_entry,
    extract_addrs, determine_tx_type,
  }

  abbrev pub State : Type 0
  State = Check Filter Entry × Bool

  -- `if !added { matches = append(matches, tx); added = true }`
  abbrev pub mark : Tx → State → State
  mark tx (s, true) = (s, true)
  mark tx (s, false) = (record s { matches = s.matches ++ tx ∷ [] }, true)

  unfoldable pub check_inputs : Tx → List OutPoint → State → State
  check_inputs tx [] s = s
  check_inputs tx (o ∷ os) s =
      let hit = check_inputs tx os (mark tx s) in
      let miss = check_inputs tx os s in if exists_unspent s.0.filter o then hit else miss

  -- A new outpoint of the wallet.
  abbrev pub add_out_point : OutPoint → State → State
  add_out_point o (s, added) = if exists_unspent s.filter o then (s, added) else (
    record s {
      filter = add_unspent s.filter o;
      filter_data = s.filter_data ++ out_point_entry o ∷ [];
      fadded = s.fadded ++ out_point_entry o ∷ [];
    },
    added,
  )

  unfoldable pub check_addrs : Tx → OutPoint → List Address → State → State
  check_addrs tx o [] s = s
  check_addrs tx o (a ∷ as') s =
      let hit = check_addrs tx o as' (mark tx (add_out_point o s)) in
      let miss = check_addrs tx o as' s in if exists_address s.0.filter a then hit else miss

  -- An output whose script does not parse is passed over.
  abbrev pub addrs_of : TxOut → List Address
  addrs_of t = elim (extract_addrs t.version t.pk_script) [ none ↦ [] | some addrs ↦ addrs ]

  unfoldable pub check_outputs : Tx → ℕ → ℕ → List TxOut → State → State
  check_outputs tx tree i [] s = s
  check_outputs tx tree i (t ∷ ts) s =
      check_outputs tx tree (i + 1) ts
        (check_addrs tx (record { hash = tx.hash; index = i; tree = tree }) (addrs_of t) s)

  abbrev tx_type : ℕ → Tx → TxType
  tx_type tree tx = if tree == tree_stake then determine_tx_type tx else regular

  -- The inputs that reference outputs: none of a coinbase, all but the first of a vote (it has
  -- one, since dcrd gives the type).
  unfoldable pub spent : ℕ → ℕ → Tx → List OutPoint
  spent i tree tx = elim (tx_type tree tx) [
    | regular ↦ if i == 0 then [] else tx.tx_in
    | vote ↦ drop 1 tx.tx_in
    | other_stake ↦ tx.tx_in
  ]

  unfoldable pub check_transaction : ℕ → ℕ → Tx → Check Filter Entry → Check Filter Entry
  check_transaction i tree tx s =
      (check_outputs tx tree 0 tx.tx_out (check_inputs tx (spent i tree tx) (s, false))).0

  unfoldable pub rescan_check_transactions :
      ℕ → ℕ → List Tx → Check Filter Entry → Check Filter Entry
  rescan_check_transactions i tree [] s = s
  rescan_check_transactions i tree (tx ∷ txs) s =
      rescan_check_transactions (i + 1) tree txs (check_transaction i tree tx s)

  -- The wallet's filter and data go in and out with the matches and what was added.
  unfoldable pub rescan_block : Block → Filter → List Entry → Check Filter Entry
  rescan_block b f d = rescan_check_transactions 0 tree_regular b.transactions (
      rescan_check_transactions 0 tree_stake b.s_transactions
        (record { filter = f; filter_data = d; fadded = []; matches = [] }))

  unfoldable pub any_address : Filter → List Address → Bool
  any_address f [] = false
  any_address f (a ∷ as') =
      let rest = any_address f as' in if exists_address f a then true else rest

  unfoldable pub any_unspent : Filter → List OutPoint → Bool
  any_unspent f [] = false
  any_unspent f (o ∷ os) = let rest = any_unspent f os in if exists_unspent f o then true else rest

  unfoldable pub any_output : Filter → List TxOut → Bool
  any_output f [] = false
  any_output f (t ∷ ts) =
      let rest = any_output f ts in if any_address f (addrs_of t) then true else rest

  unfoldable pub relevant_tx : Filter → Tx → Bool
  relevant_tx f tx = any_unspent f tx.tx_in || any_output f tx.tx_out

  -- `filterRelevant`: all inputs count, and no filter changes. The matches are written over the
  -- array of the argument, so the caller's transactions are the second result from then on.
  unfoldable pub relevant_txs : Filter → List Tx → List Tx
  relevant_txs f [] = []
  relevant_txs f (tx ∷ txs) =
      let rest = relevant_txs f txs in if relevant_tx f tx then tx ∷ rest else rest

  unfoldable pub filter_relevant : Filter → List Tx → List Tx × List Tx
  filter_relevant f txs =
      (relevant_txs f txs, relevant_txs f txs ++ drop (length (relevant_txs f txs)) txs)
