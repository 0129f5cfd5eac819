-- ===== src/Txhelper/Tests.antt =====
-- The classification of three transactions.
use btclibwallet.Prelude.{◌+◌, ◌^◌, ◌≡◌, refl}
use btclibwallet.Prelude.Int.{pos, negsuc, ◌-ℤ◌, i64, float64}
use btclibwallet.Txhelper.{transaction_amount_and_direction, format_transaction_type, vote}

transferred : transaction_amount_and_direction (pos 5000) (pos 4900) (pos 100) ≡ (pos 100, pos 2)
unfolding transaction_amount_and_direction ◌-ℤ◌ i64 float64
transferred = refl

-- A fee that others paid makes the amount of a sent transaction negative.
negative_amount : transaction_amount_and_direction (pos 5000) (pos 5000) (pos 7) ≡ (negsuc 6, pos 0)
unfolding transaction_amount_and_direction ◌-ℤ◌ i64 float64
negative_amount = refl

-- Beyond 2^53 the comparison of floats calls a transaction a transfer that spends one atom more.
rounded_transfer :
    transaction_amount_and_direction (pos (2 ^ 53 + 1)) (pos 0) (pos (2 ^ 53))
    ≡ (pos (2 ^ 53), pos 2)
unfolding transaction_amount_and_direction ◌-ℤ◌ i64 float64
rounded_transfer = refl

vote_name : format_transaction_type vote ≡ "Vote"
unfolding format_transaction_type
vote_name = refl
