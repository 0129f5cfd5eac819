-- ===== src/Decode/Reward.antt =====
-- The reward of a vote: what it pays back to the wallet, less what the wallet put into the ticket.
use native.Mathlib.Nat.{zero-add}
use text.Mathlib.Text.{◌==◌ as str_eq}
use btclibwallet.Prelude.{
  ℕ, suc, ◌+◌, ◌^◌, ◌<◌, String, ◌≡◌, ◌∙◌, true, false, Option, some, List, [], ◌∷◌, All, ok, arith,
  if◌then◌else◌,
}
use btclibwallet.Prelude.Int.{pos, negsuc, pos_part, neg_part, ◌+ℤ◌, ◌-ℤ◌, ltb_ℤ, sub_ℕ, i64_fits}
use btclibwallet.Types.{Transaction, TxInput, WalletOutput}
use btclibwallet.Decode.{Chain, decode_transaction}
use btclibwallet.Decode.Summary.{
  TransactionSummary, WalletReader, ticket_investment, ticket_output, with_ticket, wallet_tx,
  decode_with_summary,
}

-- The amounts of the inputs, and of the outputs, that belong to an account of the wallet.
abbrev pub own_inputs : List TxInput → ℕ
own_inputs [] = 0
own_inputs (t ∷ ts) =
    (if ltb_ℤ (negsuc 0) t.account_number then pos_part t.amount else 0) + own_inputs ts

abbrev pub own_outputs : List WalletOutput → ℕ
own_outputs [] = 0
own_outputs (w ∷ ws) =
    (if ltb_ℤ (negsuc 0) w.wallet_account.account_number then pos_part w.amount_out else 0)
    + own_outputs ws

ticket_investment-own :
    (a : ℕ) (ts : List TxInput)
    → All (λ t. neg_part t.amount ≡ 0) ts
    → a + own_inputs ts < 2 ^ 62
    → ticket_investment (pos a) ts ≡ pos (a + own_inputs ts)
unfolding ticket_investment ◌+ℤ◌
ticket_investment-own a [] h k = ground arith
ticket_investment-own a (t ∷ ts) (h, hs) k = ground (
  arith,
  i64_fits (pos a +ℤ t.amount),
  ticket_investment-own (a + pos_part t.amount) ts hs,
  ticket_investment-own a ts hs,
)

ticket_output-own :
    (a : ℕ) (ws : List WalletOutput)
    → All (λ w. neg_part w.amount_out ≡ 0) ws
    → a + own_outputs ws < 2 ^ 62
    → ticket_output (pos a) ws ≡ pos (a + own_outputs ws)
unfolding ticket_output ◌+ℤ◌
ticket_output-own a [] h k = ground arith
ticket_output-own a (w ∷ ws) (h, hs) k = ground (
  arith,
  i64_fits (pos a +ℤ w.amount_out),
  ticket_output-own (a + pos_part w.amount_out) ws hs,
  ticket_output-own a ws hs,
)

module _ (chain : Chain) (reader : WalletReader) where
  reward-own :
      (outputs : List WalletOutput) (purchase tx : Transaction)
      → All (λ t. neg_part t.amount ≡ 0) purchase.inputs
      → All (λ w. neg_part w.amount_out ≡ 0) outputs
      → own_inputs purchase.inputs < 2 ^ 62
      → own_outputs outputs < 2 ^ 62
      → (with_ticket outputs purchase tx).vote_reward
        ≡ sub_ℕ (own_outputs outputs) (own_inputs purchase.inputs)
  unfolding with_ticket ◌-ℤ◌
  reward-own outputs purchase tx hi ho bi bo =
      rw
        (
          ticket_output-own 0 outputs ho (omega arith),
          ticket_investment-own 0 purchase.inputs hi (omega arith),
          zero-add,
          zero-add,
        )
        (i64_fits _ (ground arith) (ground arith) ∙ ground arith)

  -- A vote whose ticket can be looked up, and whose ticket's purchase spends no ticket itself:
  -- two levels of decoding are enough, and the reward is what the vote's outputs pay to the
  -- wallet's accounts less what they put into the ticket, for sums below 2^62.
  pub decode_with_summary-reward :
      (depth : ℕ) (s s' : TransactionSummary) (block block' : Option String) (hash : String)
      (tx purchase : Transaction)
      → decode_transaction chain (wallet_tx chain reader s block) ≡ some (ok tx)
      → str_eq tx.ticket_spent_hash "" ≡ false
      → reader.new_hash_from_str tx.ticket_spent_hash ≡ ok hash
      → reader.transaction_summary hash ≡ ok (s', block')
      → decode_transaction chain (wallet_tx chain reader s' block') ≡ some (ok purchase)
      → str_eq purchase.ticket_spent_hash "" ≡ true
      → All (λ t. neg_part t.amount ≡ 0) purchase.inputs
      → All (λ w. neg_part w.amount_out ≡ 0) (wallet_tx chain reader s block).outputs
      → own_inputs purchase.inputs < 2 ^ 62
      → own_outputs (wallet_tx chain reader s block).outputs < 2 ^ 62
      → (t : Transaction) × (decode_with_summary chain reader (suc (suc depth)) s block
          ≡ some (ok t))
        × (t.vote_reward
            ≡ sub_ℕ
                (own_outputs (wallet_tx chain reader s block).outputs)
                (own_inputs purchase.inputs))
  unfolding decode_with_summary
  decode_with_summary-reward d s s' b b' hash tx purchase e1 e2 e3 e4 e5 e6 hi ho bi bo = (
    with_ticket (wallet_tx chain reader s b).outputs purchase tx,
    ground (arith, e1, e2, e3, e4, e5, e6),
    reward-own (wallet_tx chain reader s b).outputs purchase tx hi ho bi bo,
  )
