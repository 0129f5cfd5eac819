-- ===== src/Spv/Announced.antt =====
-- `handleBlockAnnouncements` of spv/sync.go: announced blocks are put into the sidechains, and each
-- wallet switches to its best chain with the transactions that a scan finds. The forest of
-- sidechains and the wallet are parameters, by what the code asks of them.
use btclibwallet.Prelude.{
  ℕ, ◌+◌, Bool, true, false, Option, none, some, List, [], ◌∷◌, ◌++◌, Result, ok, err, length,
  if◌then◌else◌,
}
use btclibwallet.Errors.{Error}
use btclibwallet.Spv.{Hash, Tx}

-- The matching transactions by block.
abbrev pub Matching : Type 0
Matching = List (Hash × List Tx)

pub record WalletChain (Forest Node : Type 0) : Type 0 where
  pub block_in_main_chain : Node → Result Error Bool
  -- and what it answers once the turn is over
  pub block_in_main_chain_after : Node → Result Error Bool
  pub evaluate_best_chain : Forest → Result Error (List Node)
  pub validate_header_chain : List Node → Option Error
  pub rescan_point : Result Error (Option Hash)
  pub scan_chain : List Node → Result Error Matching
  -- The chain that is left, with the forest.
  pub chain_switch : Forest → List Node → Matching → Result Error (Forest × List Node)

pub data TipChanged (Node : Type 0) : Type 0 where
  -- The new tip, the depth of the reorganization, the transactions.
  tip_changed : Node → ℕ → List Tx → TipChanged Node

-- What the announcements change: the forest, the locators and their generation, the notifications.
pub record Chains (Forest Node : Type 0) : Type 0 where
  pub forest : Forest
  pub current_locators : List Hash
  pub locator_generation : ℕ
  pub sent : List (TipChanged Node)

-- The transactions of all blocks; the code iterates over a map, so their order is any.
unfoldable pub flatten : Matching → List Tx
flatten [] = []
flatten ((h, txs) ∷ ms) = txs ++ flatten ms

unfoldable pub tip {ℓ} : {A : Type ℓ} → A → List A → A
tip n [] = n
tip n (m ∷ ms) = tip m ms

-- `AddBlockNode` says whether the block is new to the forest.
module _ (Forest Node : Type 0) (add_block_node : Forest → Node → Forest × Bool) where
  -- The forest, the blocks that are new to it, and the error.
  unfoldable pub add_new :
      WalletChain Forest Node → List Node → Forest → Forest × List Node × Option Error
  add_new w [] f = (f, [], none)
  add_new w (n ∷ ns) f =
      let r = add_new w ns (add_block_node f n).0 in
      elim (w.block_in_main_chain n) [
        | err e ↦ (f, [], some e)
        | ok true ↦ add_new w ns f
        | ok false ↦ (r.0, if (add_block_node f n).1 then n ∷ r.1 else r.1, r.2)
      ]

  unfoldable pub add_all : List Node → Forest → Forest
  add_all [] f = f
  add_all (n ∷ ns) f = add_all ns (add_block_node f n).0

  -- Only a wallet that has nothing to rescan is scanned for; nil is no transactions.
  unfoldable pub matching_txs : WalletChain Forest Node → List Node → Result Error Matching
  matching_txs w chain = elim w.rescan_point [
    | err e ↦ err e
    | ok (some h) ↦ ok []
    | ok none ↦ w.scan_chain chain
  ]

  unfoldable pub switched :
      Chains Forest Node → Node → List Node → Matching → Forest × List Node → Chains Forest Node
  switched s n ns m (f, prev) = record s {
    forest = add_all prev f;
    current_locators = [];
    locator_generation = s.locator_generation + 1;
    sent = s.sent ++ tip_changed (tip n ns) (length prev) (flatten m) ∷ [];
  }

  -- The function that runs under the lock of the sidechains, with the locators after it.
  unfoldable pub turn :
      WalletChain Forest Node → List Node → Chains Forest Node → Chains Forest Node × Option Error
  turn w announced s =
      let a = add_new w announced s.forest in
      let added = record s { forest = a.0 } in
      elim a.2 [
        | some e ↦ (added, some e)
        | none ↦ elim (w.evaluate_best_chain a.0) [
          | err e ↦ (added, some e)
          | ok [] ↦ (added, none)
          | ok (n ∷ ns) ↦ elim (w.validate_header_chain (n ∷ ns)) [
            | some e ↦ (added, some e)
            | none ↦ elim (matching_txs w (n ∷ ns)) [
              | err e ↦ (added, some e)
              | ok m ↦ elim (w.chain_switch a.0 (n ∷ ns) m) [
                | err e ↦ (added, some e)
                | ok p ↦ (switched added n ns m p, none)
              ]
            ]
          ]
        ]
      ]

  -- The blocks that are new are looked up again, to log those that are in no main chain.
  unfoldable pub look_up_new : WalletChain Forest Node → List Node → Option Error
  look_up_new w [] = none
  look_up_new w (n ∷ ns) = elim (w.block_in_main_chain_after n) [
    | err e ↦ some e
    | ok have_block ↦ look_up_new w ns
  ]

  -- One wallet's turn.
  unfoldable pub announce :
      WalletChain Forest Node → List Node → Chains Forest Node → Chains Forest Node × Option Error
  announce w announced s =
      let r = turn w announced s in
      elim r.1 [
        | some e ↦ (r.0, some e)
        | none ↦ (r.0, look_up_new w (add_new w announced s.forest).1)
      ]

  unfoldable pub announce_all :
      List (WalletChain Forest Node)
      → List Node
      → Chains Forest Node
      → Chains Forest Node × Option Error
  announce_all [] announced s = (s, none)
  announce_all (w ∷ ws) announced s =
      let r = announce w announced s in
      elim r.1 [ some e ↦ (r.0, some e) | none ↦ announce_all ws announced r.0 ]

  -- Without headers nothing happens; the peer gives the filters of the announced blocks.
  unfoldable pub handle_block_announcements :
      List (WalletChain Forest Node)
      → Option Error
      → List Node
      → Chains Forest Node
      → Chains Forest Node × Option Error
  handle_block_announcements ws cfilters [] s = (s, none)
  handle_block_announcements ws cfilters (n ∷ ns) s = elim cfilters [
    | some e ↦ (s, some e)
    | none ↦ announce_all ws (n ∷ ns) s
  ]
