-- ===== src/Decode/Tests.antt =====
-- A ticket, and the vote that spends it, decoded.
use text.Mathlib.Text.{◌==◌ as str_eq}
use btclibwallet.Prelude.{
  ◌≡◌, refl, false, Option, none, some, [], ◌∷◌, Result, ok, err, arith, ◌==◌, if◌then◌else◌,
}
use btclibwallet.Prelude.Int.{pos, i32, sub_ℕ}
use btclibwallet.Prelude.Hex.{hex_encode}
use btclibwallet.Errors.{Error}
use btclibwallet.Types.{Transaction, WalletInput, WalletAccount, TxInfoFromWallet}
use btclibwallet.Txhelper.{vote, ticket_purchase}
use btclibwallet.Txhelper.Amounts.{Classified}
use btclibwallet.Decode.{
  Chain, MsgTx, TxIn, decode_tx_inputs, decode_transaction, vote_info, spent_ticket,
}
use btclibwallet.Decode.Direction.{decode_transaction-direction}
use btclibwallet.Decode.Summary.{TransactionSummary, WalletReader, wallet_tx, decode_with_summary}
use btclibwallet.Decode.Reward.{decode_with_summary-reward}

abbrev coin : TxIn
coin = record {
  previous_hash = "c0";
  previous_index = 0;
  previous_outpoint = "c0:0";
  value_in = pos 1000;
}

abbrev stake : TxIn
stake = record {
  previous_hash = "t0";
  previous_index = 0;
  previous_outpoint = "t0:0";
  value_in = pos 990;
}

abbrev vote_tx : MsgTx
vote_tx = record {
  tx_in = coin ∷ stake ∷ [];
  tx_out = record { value = pos 1100; version = 0; pk_script = [] } ∷ [];
  version = 2;
  lock_time = 0;
  expiry = 0;
}

abbrev ticket_tx : MsgTx
ticket_tx = record {
  tx_in = coin ∷ [];
  tx_out = record { value = pos 990; version = 0; pk_script = [] } ∷ [];
  version = 1;
  lock_time = 0;
  expiry = 0;
}

-- Version 2 marks the vote.
abbrev chain : Chain
chain = record {
  msg_tx_from_hex = λ h. if str_eq h "01" then ok vote_tx else ok ticket_tx;
  serialize_size = λ m. 300;
  tx_fee_rate = λ m. (pos 10, pos 33);
  tx_hash = λ m. if m.version == 2 then "v0" else "t0";
  tx_transaction_type = λ m. if m.version == 2 then vote else ticket_purchase;
  is_sstx = λ m. m.version == 1;
  is_ssgen = λ m. m.version == 2;
  is_ssrtx = λ m. false;
  ssgen_version = λ m. 8;
  ssgen_vote_bits = λ m. 1;
  is_stake_submission_tx_out = λ i. i == 0;
  commitment_address = λ b. some "Dc";
  extract_addrs = λ v b. ("stakegen", "Ds" ∷ []);
  stake_submission_ty = "stakesubmission";
}

abbrev vote_summary : TransactionSummary
vote_summary = record {
  raw_bytes = 1 ∷ [];
  my_inputs = record { index = 1; previous_account = 0; previous_amount = pos 990 } ∷ [];
  my_outputs =
      record { index = 0; account = 0; amount = pos 1100; is_internal = false; address = "Ds" }
      ∷ [];
  timestamp = pos 172800;
}

abbrev ticket_summary : TransactionSummary
ticket_summary = record {
  raw_bytes = 2 ∷ [];
  my_inputs = record { index = 0; previous_account = 0; previous_amount = pos 1000 } ∷ [];
  my_outputs = [];
  timestamp = pos 86400;
}

abbrev reader : WalletReader
reader = record {
  id = 1;
  block_height = λ h. some (pos 100);
  account_name_raw = λ n. some "default";
  new_hash_from_str = λ h. ok h;
  transaction_summary = λ h. ok (ticket_summary, some "b0");
}

abbrev account : WalletAccount
account = record { account_number = pos 0; account_name = "default" }

abbrev mine : WalletInput
mine = record { index = pos 1; amount_in = pos 990; wallet_account = account }

abbrev vote_info_from_wallet : TxInfoFromWallet
vote_info_from_wallet = record {
  wallet_id = 1;
  hex = "01";
  timestamp = pos 172800;
  block_height = pos 100;
  inputs = mine ∷ [];
  outputs =
      record {
        index = pos 0;
        amount_out = pos 1100;
        is_internal = false;
        address = "Ds";
        wallet_account = account;
      }
      ∷ [];
}

abbrev no_tx : Transaction
no_tx = record {
  wallet_id = 0;
  hash = "";
  type = "";
  hex = "";
  timestamp = pos 0;
  block_height = pos 0;
  version = pos 0;
  lock_time = pos 0;
  expiry = pos 0;
  fee = pos 0;
  fee_rate = pos 0;
  size = 0;
  direction = pos 0;
  amount = pos 0;
  inputs = [];
  outputs = [];
  vote_version = pos 0;
  last_block_valid = false;
  vote_bits = "";
  vote_reward = pos 0;
  ticket_spent_hash = "";
  days_to_vote_or_revoke = pos 0;
}

-- What a decoder returned, where it did.
abbrev got : Option (Result Error Transaction) → Transaction
got none = no_tx
got (some (err e)) = no_tx
got (some (ok t)) = t

decode_transaction-direction_example : Classified 990 1100 10 (
  (got (decode_transaction chain vote_info_from_wallet)).amount,
  (got (decode_transaction chain vote_info_from_wallet)).direction,
)
unfolding decode_transaction vote_info spent_ticket
decode_transaction-direction_example =
    decode_transaction-direction chain vote_info_from_wallet vote_tx
      (got (decode_transaction chain vote_info_from_wallet)) 10 refl refl (refl, tt) (refl, tt)
      (omega arith) (omega arith) (omega arith) refl

abbrev decoded_vote : Transaction
decoded_vote = got (decode_transaction chain (wallet_tx chain reader vote_summary (some "b1")))

abbrev decoded_ticket : Transaction
decoded_ticket = got (decode_transaction chain (wallet_tx chain reader ticket_summary (some "b0")))

-- The vote pays 1100 for the 1000 that the ticket took: a reward of 100.
decode_with_summary-reward_example :
    (t : Transaction) × (decode_with_summary chain reader 2 vote_summary (some "b1") ≡ some (ok t))
    × (t.vote_reward ≡ sub_ℕ 1100 1000)
unfolding decode_transaction vote_info spent_ticket wallet_tx hex_encode decode_tx_inputs i32
decode_with_summary-reward_example =
    decode_with_summary-reward chain reader 0 vote_summary ticket_summary (some "b1") (some "b0")
      "t0" decoded_vote decoded_ticket refl refl refl refl refl refl (refl, tt) (refl, tt)
      (omega arith) (omega arith)
