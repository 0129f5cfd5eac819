-- ===== src/Decode/Direction.antt =====
-- The direction and the amount of a decoded transaction.
use native.Mathlib.Nat.{zero-add}
use btclibwallet.Prelude.{
  ℕ, ◌+◌, ◌^◌, ◌<◌, ◌≡◌, sym, subst, some, List, [], ◌∷◌, All, ok, arith, Option-cases, inl, inr,
}
use btclibwallet.Prelude.Int.{pos, pos_part, neg_part, ◌+ℤ◌, i64_fits}
use btclibwallet.Types.{Transaction, TxInfoFromWallet, WalletInput, WalletOutput}
use btclibwallet.Txhelper.Amounts.{Classified, direction-Classified}
use btclibwallet.Txhelper.{transaction_amount_and_direction}
use btclibwallet.Decode.{
  MsgTx, Chain, vote_info, spent_ticket, decode_transaction, total_wallet_input,
  total_wallet_output,
}

-- What the wallet's own inputs and outputs add up to.
abbrev pub sum_inputs : List WalletInput → ℕ
sum_inputs [] = 0
sum_inputs (w ∷ ws) = pos_part w.amount_in + sum_inputs ws

abbrev pub sum_outputs : List WalletOutput → ℕ
sum_outputs [] = 0
sum_outputs (w ∷ ws) = pos_part w.amount_out + sum_outputs ws

total_wallet_input-sum :
    (a : ℕ) (ws : List WalletInput)
    → All (λ w. neg_part w.amount_in ≡ 0) ws
    → a + sum_inputs ws < 2 ^ 53
    → total_wallet_input (pos a) ws ≡ pos (a + sum_inputs ws)
unfolding total_wallet_input ◌+ℤ◌
total_wallet_input-sum a [] h k = ground arith
total_wallet_input-sum a (w ∷ ws) (h, hs) k =
    rw (i64_fits (pos a +ℤ w.amount_in) (ground arith) (ground arith))
      (ground (arith, total_wallet_input-sum (a + pos_part w.amount_in) ws hs))

total_wallet_output-sum :
    (a : ℕ) (ws : List WalletOutput)
    → All (λ w. neg_part w.amount_out ≡ 0) ws
    → a + sum_outputs ws < 2 ^ 53
    → total_wallet_output (pos a) ws ≡ pos (a + sum_outputs ws)
unfolding total_wallet_output ◌+ℤ◌
total_wallet_output-sum a [] h k = ground arith
total_wallet_output-sum a (w ∷ ws) (h, hs) k =
    rw (i64_fits (pos a +ℤ w.amount_out) (ground arith) (ground arith))
      (ground (arith, total_wallet_output-sum (a + pos_part w.amount_out) ws hs))

decode_transaction-amounts :
    (chain : Chain) (w : TxInfoFromWallet) (mtx : MsgTx) (tx : Transaction)
    → chain.msg_tx_from_hex w.hex ≡ ok mtx
    → decode_transaction chain w ≡ some (ok tx)
    → (tx.amount, tx.direction)
      ≡ transaction_amount_and_direction
          (total_wallet_input (pos 0) w.inputs)
          (total_wallet_output (pos 0) w.outputs)
          (chain.tx_fee_rate mtx).0
unfolding decode_transaction
decode_transaction-amounts chain w mtx tx hm h = elim (Option-cases (vote_info chain mtx)) [
  | inl bad ↦ absurd (ground (arith, hm, bad))
  | inr (v, e) ↦ elim (Option-cases (spent_ticket chain mtx v.ticket_spent_hash)) [
    | inl bad ↦ absurd (ground (arith, hm, e, bad))
    | inr (spent, e') ↦ ground (arith, hm, e, e')
  ]
]

-- A transaction that decodes, where the wallet's own amounts are not negative and their sums and
-- the fee are below 2^53, has the direction and the amount that the three totals call for.
pub decode_transaction-direction :
    (chain : Chain) (w : TxInfoFromWallet) (mtx : MsgTx) (tx : Transaction) (fee : ℕ)
    → chain.msg_tx_from_hex w.hex ≡ ok mtx
    → (chain.tx_fee_rate mtx).0 ≡ pos fee
    → All (λ i. neg_part i.amount_in ≡ 0) w.inputs
    → All (λ o. neg_part o.amount_out ≡ 0) w.outputs
    → sum_inputs w.inputs < 2 ^ 53
    → sum_outputs w.outputs < 2 ^ 53
    → fee < 2 ^ 53
    → decode_transaction chain w ≡ some (ok tx)
    → Classified (sum_inputs w.inputs) (sum_outputs w.outputs) fee (tx.amount, tx.direction)
decode_transaction-direction chain w mtx tx fee hm hf hi ho bi bo bf h =
    subst (Classified (sum_inputs w.inputs) (sum_outputs w.outputs) fee)
      (sym (decode_transaction-amounts chain w mtx tx hm h))
      (rw
        (
          hf,
          total_wallet_input-sum 0 w.inputs hi (omega arith),
          total_wallet_output-sum 0 w.outputs ho (omega arith),
          zero-add,
          zero-add,
        )
        (direction-Classified (sum_inputs w.inputs) (sum_outputs w.outputs) fee bi bo bf))
