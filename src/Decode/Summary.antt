-- ===== src/Decode/Summary.antt =====
-- txparser.go: `decodeTransactionWithTxSummary`, and `GetTransactionRaw` of transactions.go, which
-- call one another for the ticket that a vote or a revocation spends. A ticket purchase spends no
-- ticket, so the call goes one deep on a valid chain; `depth` bounds it, and no depth left is a
-- panic, as a stack overflow is.
use btclibwallet.Prelude.{
  ℕ, zero, suc, String, Bool, Option, none, some, List, [], ◌∷◌, Result, ok, err, map,
  if◌then◌else◌,
}
use btclibwallet.Prelude.Int.{ℤ, pos, negsuc, ◌+ℤ◌, ◌-ℤ◌, ltb_ℤ, i32, i64, div_ℤ}
use btclibwallet.Prelude.Bytes.{Bytes}
use btclibwallet.Prelude.Hex.{hex_encode}
use btclibwallet.Errors.{Error}
use text.Mathlib.Text.{◌==◌ as str_eq}
use btclibwallet.Types.{
  Transaction, TxInput, WalletInput, WalletOutput, WalletAccount, TxInfoFromWallet,
}
use btclibwallet.Decode.{Chain, decode_transaction}

-- dcrwallet's wallet.TransactionSummary.
pub record MyInput : Type 0 where
  pub index : ℕ
  pub previous_account : ℕ
  pub previous_amount : ℤ

pub record MyOutput : Type 0 where
  pub index : ℕ
  pub account : ℕ
  pub amount : ℤ
  pub is_internal : Bool
  pub address : String

pub record TransactionSummary : Type 0 where
  pub raw_bytes : Bytes
  pub my_inputs : List MyInput
  pub my_outputs : List MyOutput
  pub timestamp : ℤ

-- What is asked of dcrwallet: the height of a block, the name of an account, where there is one,
-- the hash in a text, and the summary of a transaction with the hash of its block.
pub record WalletReader : Type 0 where
  pub id : ℕ
  pub block_height : String → Option ℤ
  pub account_name_raw : ℤ → Option String
  pub new_hash_from_str : String → Result Error String
  pub transaction_summary : String → Result Error (TransactionSummary × Option String)

abbrev pub block_height_invalid : ℤ
block_height_invalid = negsuc 0

abbrev pub seconds_per_day : ℕ
seconds_per_day = 86400

-- The loops over the inputs of the purchase and the outputs of the vote.
unfoldable pub ticket_investment : ℤ → List TxInput → ℤ
ticket_investment total [] = total
ticket_investment total (t ∷ ts) =
    ticket_investment (if ltb_ℤ (negsuc 0) t.account_number then i64 (total +ℤ t.amount) else total)
      ts

unfoldable pub ticket_output : ℤ → List WalletOutput → ℤ
ticket_output total [] = total
ticket_output total (w ∷ ws) =
    ticket_output
      (if ltb_ℤ (negsuc 0) w.wallet_account.account_number
        then i64 (total +ℤ w.amount_out)
        else total)
      ws

-- The days and the reward of a vote or a revocation, from the purchase of its ticket.
unfoldable pub with_ticket : List WalletOutput → Transaction → Transaction → Transaction
with_ticket outputs purchase tx = record tx {
  days_to_vote_or_revoke = i32 (div_ℤ (i64 (tx.timestamp -ℤ purchase.timestamp)) seconds_per_day);
  vote_reward = i64 (ticket_output (pos 0) outputs -ℤ ticket_investment (pos 0) purchase.inputs);
}

module _ (chain : Chain) (reader : WalletReader) where
  -- `AccountName`
  unfoldable pub account_name : ℤ → String
  account_name number = elim (reader.account_name_raw number) [
    | none ↦ "Account not found"
    | some name ↦ name
  ]

  account_of : ℕ → WalletAccount
  unfolding account_name
  account_of n = record { account_number = i32 (pos n); account_name = account_name (i32 (pos n)) }

  wallet_input : MyInput → WalletInput
  unfolding account_of
  wallet_input i = record {
    index = i32 (pos i.index);
    amount_in = i.previous_amount;
    wallet_account = account_of i.previous_account;
  }

  wallet_output : MyOutput → WalletOutput
  unfolding account_of
  wallet_output o = record {
    index = i32 (pos o.index);
    amount_out = o.amount;
    is_internal = o.is_internal;
    address = o.address;
    wallet_account = account_of o.account;
  }

  height_of : Option String → ℤ
  height_of none = block_height_invalid
  height_of (some hash) = elim (reader.block_height hash) [
    | none ↦ block_height_invalid
    | some h ↦ h
  ]

  unfoldable pub wallet_tx : TransactionSummary → Option String → TxInfoFromWallet
  unfolding wallet_input wallet_output height_of
  wallet_tx s block_hash = record {
    wallet_id = reader.id;
    hex = hex_encode s.raw_bytes;
    timestamp = s.timestamp;
    block_height = height_of block_hash;
    inputs = map wallet_input s.my_inputs;
    outputs = map wallet_output s.my_outputs;
  }

  -- `GetTransactionRaw` of the purchase, by its hash, with the decoder for one level less.
  get_transaction_raw :
      (TransactionSummary → Option String → Option (Result Error Transaction))
      → String
      → Option (Result Error Transaction)
  get_transaction_raw decode hash = elim (reader.transaction_summary hash) [
    | err e ↦ some (err e)
    | ok (s, block) ↦ decode s block
  ]

  -- What is done with a decoded transaction that names a ticket.
  finish :
      (TransactionSummary → Option String → Option (Result Error Transaction))
      → List WalletOutput
      → Transaction
      → Option (Result Error Transaction)
  unfolding get_transaction_raw
  finish decode outputs tx =
      if str_eq tx.ticket_spent_hash ""
      then some (ok tx)
      else elim (reader.new_hash_from_str tx.ticket_spent_hash) [
        | err e ↦ some (err e)
        | ok hash ↦ elim (get_transaction_raw decode hash) [
          | none ↦ none
          | some (err e) ↦ some (err e)
          | some (ok purchase) ↦ some (ok (with_ticket outputs purchase tx))
        ]
      ]

  unfoldable pub decode_with_summary :
      ℕ → TransactionSummary → Option String → Option (Result Error Transaction)
  unfolding finish
  decode_with_summary zero s block_hash = none
  decode_with_summary (suc depth) s block_hash =
      let w = wallet_tx s block_hash in
      elim (decode_transaction chain w) [
        | none ↦ none
        | some (err e) ↦ some (err e)
        | some (ok tx) ↦ finish (decode_with_summary depth) w.outputs tx
      ]
