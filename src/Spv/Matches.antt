-- ===== src/Spv/Matches.antt =====
-- spv/rescan.go: which transactions a rescan matches, and a block that has nothing of the wallet.
use btclibwallet.Prelude.{ℕ, ◌+◌, ◌≡◌, ◌∙◌, refl, ap, false, List, [], ◌∷◌, ◌++◌, All}
use btclibwallet.Spv.{OutPoint, TxOut, Tx, Block, tree_regular, tree_stake}
use btclibwallet.Spv.Rescan.{
  Watch, Check, State, check_inputs, check_addrs, addrs_of, check_outputs, spent, check_transaction,
  rescan_check_transactions, rescan_block,
}

module _ (W : Watch) where
  open W use {Filter, Address, Entry, exists_address, exists_unspent}

  -- The outpoints that the transactions spend, from the position i of the block.
  abbrev pub spent_list : ℕ → ℕ → List Tx → List OutPoint
  spent_list i tree [] = []
  spent_list i tree (tx ∷ txs) = spent W i tree tx ++ spent_list (i + 1) tree txs

  abbrev pub out_addrs : List TxOut → List Address
  out_addrs [] = []
  out_addrs (t ∷ ts) = addrs_of W t ++ out_addrs ts

  -- The addresses that the transactions pay.
  abbrev pub paid_list : List Tx → List Address
  paid_list [] = []
  paid_list (tx ∷ txs) = out_addrs tx.tx_out ++ paid_list txs

  abbrev pub spent_by : Block → List OutPoint
  spent_by b = spent_list 0 tree_stake b.s_transactions ++ spent_list 0 tree_regular b.transactions

  abbrev pub paid_by : Block → List Address
  paid_by b = paid_list b.s_transactions ++ paid_list b.transactions

  abbrev pub NoUnspent : Filter → List OutPoint → Type 0
  NoUnspent f = All (λ o. exists_unspent f o ≡ false)

  abbrev pub NoAddress : Filter → List Address → Type 0
  NoAddress f = All (λ a. exists_address f a ≡ false)

  -- Nothing of the block is the wallet's.
  abbrev pub IsQuiet : Filter → Block → Type 0
  IsQuiet f b = NoUnspent f (spent_by b) × NoAddress f (paid_by b)

  All-append {ℓ} :
      {A : Type ℓ} (P : A → Type 0) (xs ys : List A) → All P (xs ++ ys) → All P xs × All P ys
  All-append P [] ys h = (tt, h)
  All-append P (x ∷ xs) ys h = ((h.0, (All-append P xs ys h.1).0), (All-append P xs ys h.1).1)

  check_inputs-quiet :
      (tx : Tx) (os : List OutPoint) (s : State W)
      → NoUnspent s.0.filter os
      → check_inputs W tx os s ≡ s
  unfolding check_inputs
  check_inputs-quiet tx [] s h = refl
  check_inputs-quiet tx (o ∷ os) s h = rw (h.0, check_inputs-quiet tx os s h.1)

  check_addrs-quiet :
      (tx : Tx) (o : OutPoint) (addrs : List Address) (s : State W)
      → NoAddress s.0.filter addrs
      → check_addrs W tx o addrs s ≡ s
  unfolding check_addrs
  check_addrs-quiet tx o [] s h = refl
  check_addrs-quiet tx o (a ∷ addrs) s h = rw (h.0, check_addrs-quiet tx o addrs s h.1)

  check_outputs-quiet :
      (tx : Tx) (tree i : ℕ) (ts : List TxOut) (s : State W)
      → NoAddress s.0.filter (out_addrs ts)
      → check_outputs W tx tree i ts s ≡ s
  unfolding check_outputs
  check_outputs-quiet tx tree i [] s h = refl
  check_outputs-quiet tx tree i (t ∷ ts) s h =
      let both =
        All-append (λ a. exists_address s.0.filter a ≡ false) (addrs_of W t) (out_addrs ts) h in
      ap (check_outputs W tx tree (i + 1) ts) (
        check_addrs-quiet tx (record { hash = tx.hash; index = i; tree = tree }) (addrs_of W t) s
          both.0)
      ∙ check_outputs-quiet tx tree (i + 1) ts s both.1

  check_transaction-quiet :
      (i tree : ℕ) (tx : Tx) (s : Check Filter Entry)
      → NoUnspent s.filter (spent W i tree tx)
      → NoAddress s.filter (out_addrs tx.tx_out)
      → check_transaction W i tree tx s ≡ s
  unfolding check_transaction
  check_transaction-quiet i tree tx s ho ha =
      ap (λ t. (check_outputs W tx tree 0 tx.tx_out t).0)
        (check_inputs-quiet tx (spent W i tree tx) (s, false) ho)
      ∙ ap (λ (t : State W). t.0) (check_outputs-quiet tx tree 0 tx.tx_out (s, false) ha)

  rescan_check_transactions-quiet :
      (i tree : ℕ) (txs : List Tx) (s : Check Filter Entry)
      → NoUnspent s.filter (spent_list i tree txs)
      → NoAddress s.filter (paid_list txs)
      → rescan_check_transactions W i tree txs s ≡ s
  unfolding rescan_check_transactions
  rescan_check_transactions-quiet i tree [] s ho ha = refl
  rescan_check_transactions-quiet i tree (tx ∷ txs) s ho ha =
      let o =
        All-append (λ o. exists_unspent s.filter o ≡ false) (spent W i tree tx)
          (spent_list (i + 1) tree txs) ho in
      let a =
        All-append (λ a. exists_address s.filter a ≡ false) (out_addrs tx.tx_out) (paid_list txs)
          ha in
      ap (rescan_check_transactions W (i + 1) tree txs)
        (check_transaction-quiet i tree tx s o.0 a.0)
      ∙ rescan_check_transactions-quiet (i + 1) tree txs s o.1 a.1

  pub rescan_block-quiet :
      (b : Block) (f : Filter) (d : List Entry)
      → IsQuiet f b
      → rescan_block W b f d ≡ record { filter = f; filter_data = d; fadded = []; matches = [] }
  unfolding rescan_block
  rescan_block-quiet b f d h =
      let s : Check Filter Entry = record {
        filter = f;
        filter_data = d;
        fadded = [];
        matches = [];
      } in
      let o =
        All-append (λ o. exists_unspent f o ≡ false) (spent_list 0 tree_stake b.s_transactions)
          (spent_list 0 tree_regular b.transactions) h.0 in
      let a =
        All-append (λ a. exists_address f a ≡ false) (paid_list b.s_transactions)
          (paid_list b.transactions) h.1 in
      ap (rescan_check_transactions W 0 tree_regular b.transactions)
        (rescan_check_transactions-quiet 0 tree_stake b.s_transactions s o.0 a.0)
      ∙ rescan_check_transactions-quiet 0 tree_regular b.transactions s o.1 a.1
