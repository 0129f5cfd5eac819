-- ===== src/Txhelper.antt =====
-- Package txhelper: the direction and amount of a transaction, and the names of its types
-- (txhelper/helper.go, txhelper/types.go). An int64 is an integer in range, and every subtraction
-- wraps; `float64` of a magnitude is the rounding of Prelude/Int.antt.
pub mod Amounts
mod Tests
use btclibwallet.Prelude.{ℕ, String, Bool, ◌&&◌, ◌==◌, if◌then◌else◌}
use btclibwallet.Prelude.Int.{ℤ, pos, negsuc, ◌-ℤ◌, ltb_ℤ, magnitude, neg_part, i64, float64}

abbrev pub tx_direction_invalid : ℤ
tx_direction_invalid = negsuc 0

abbrev pub tx_direction_sent : ℤ
tx_direction_sent = pos 0

abbrev pub tx_direction_received : ℤ
tx_direction_received = pos 1

abbrev pub tx_direction_transferred : ℤ
tx_direction_transferred = pos 2

abbrev pub tx_type_regular : String
tx_type_regular = "Regular"

abbrev pub tx_type_coin_base : String
tx_type_coin_base = "Coinbase"

abbrev pub tx_type_ticket_purchase : String
tx_type_ticket_purchase = "Ticket"

abbrev pub tx_type_vote : String
tx_type_vote = "Vote"

abbrev pub tx_type_revocation : String
tx_type_revocation = "Revocation"

-- dcrwallet's wallet.TransactionType, by the constants that the code names.
pub data TransactionType : Type 0 where
  regular coinbase ticket_purchase vote revocation : TransactionType

unfoldable pub format_transaction_type : TransactionType → String
format_transaction_type coinbase = tx_type_coin_base
format_transaction_type ticket_purchase = tx_type_ticket_purchase
format_transaction_type vote = tx_type_vote
format_transaction_type revocation = tx_type_revocation
format_transaction_type regular = tx_type_regular

-- `float64(fee) == math.Abs(float64(d))`: the right side is never negative, and float64 keeps
-- the sign of an integer.
abbrev pub float_eq_abs : ℤ → ℤ → Bool
float_eq_abs fee d = (neg_part fee == 0) && (float64 (magnitude fee) == float64 (magnitude d))

unfoldable pub transaction_amount_and_direction : ℤ → ℤ → ℤ → ℤ × ℤ
transaction_amount_and_direction input_total output_total fee =
    let amount_difference = i64 (output_total -ℤ input_total) in
    if ltb_ℤ amount_difference (pos 0) && float_eq_abs fee amount_difference
    then (fee, tx_direction_transferred)
    else if ltb_ℤ (pos 0) amount_difference
    then (output_total, tx_direction_received)
    else (i64 (i64 (input_total -ℤ output_total) -ℤ fee), tx_direction_sent)
