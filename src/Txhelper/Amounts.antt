-- ===== src/Txhelper/Amounts.antt =====
-- What the amount and direction of a transaction say of its totals.
use btclibwallet.Prelude.{ℕ, ◌+◌, ◌-◌, ◌^◌, ◌≤◌, ◌<◌, ◌≡◌, ◌≢◌, ◌⊎◌, arith}
use btclibwallet.Prelude.Int.{ℤ, pos, ◌-ℤ◌, i64, i64_fits, float64_exact, sub_ℕ}
use btclibwallet.Txhelper.{
  transaction_amount_and_direction, tx_direction_sent, tx_direction_received,
  tx_direction_transferred,
}

-- The three cases of the direction and the amounts that go with them.
abbrev pub Classified : ℕ → ℕ → ℕ → ℤ × ℤ → Type 0
Classified input output fee (amount, direction) =
    ((direction ≡ tx_direction_transferred)
      × (amount ≡ pos fee)
      × (0 < fee)
      × (input ≡ output + fee))
    ⊎ ((direction ≡ tx_direction_received) × (amount ≡ pos output) × (input < output))
    ⊎ ((direction ≡ tx_direction_sent)
        × (amount ≡ sub_ℕ input (output + fee))
        × (output ≤ input)
        × ((input ≢ output + fee) ⊎ (fee ≡ 0)))

difference : (a b : ℕ) → a < 2 ^ 62 → b < 2 ^ 62 → i64 (pos a -ℤ pos b) ≡ sub_ℕ a b
unfolding ◌-ℤ◌
difference a b h k = ground (arith, i64_fits (pos a -ℤ pos b))

-- What is left of the inputs after the outputs and the fee: no step wraps.
spent_amount :
    (i o f : ℕ)
    → i < 2 ^ 60
    → o < 2 ^ 60
    → f < 2 ^ 60
    → i64 (i64 (pos i -ℤ pos o) -ℤ pos f) ≡ sub_ℕ i (o + f)
unfolding ◌-ℤ◌
spent_amount i o f hi ho hf = ground (arith, difference i o, i64_fits (sub_ℕ i (o + f)))

-- For totals below 2^53 (the supply is below that), a transaction is a transfer exactly if it
-- spends nothing but a positive fee, received exactly if more comes in than goes out, and else
-- sent; the amount is the fee, all that came in, or what went out beyond the fee.
pub direction-Classified :
    (input output fee : ℕ)
    → input < 2 ^ 53
    → output < 2 ^ 53
    → fee < 2 ^ 53
    → Classified input output fee
        (transaction_amount_and_direction (pos input) (pos output) (pos fee))
unfolding transaction_amount_and_direction
direction-Classified i o f hi ho hf =
    rw
      (
        difference o i (omega arith) (omega arith),
        spent_amount i o f (omega arith) (omega arith) (omega arith),
      )
      (ground (arith, float64_exact f, float64_exact (i - o)))
