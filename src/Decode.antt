-- ===== src/Decode.antt =====
-- decodetx.go: `DecodeTransaction` and its helpers. The Decred libraries that read a transaction
-- are a parameter, the record `Chain`; a run-time panic (an index out of range) is `none`.
pub mod Inputs
pub mod Summary
pub mod Reward
pub mod Direction
mod Tests
use Prim.Native.Nat.{bit_and}
use btclibwallet.Prelude.{
  ℕ, zero, suc, ◌+◌, ◌%◌, ◌/◌, ◌<◌, String, Bool, true, false, Option, none, some, List, [], ◌∷◌,
  Result, ok, err, get_elem?, ◌==◌, ltb, if◌then◌else◌, ◌&&◌, not,
}
use btclibwallet.Prelude.Int.{ℤ, pos, negsuc, ◌+ℤ◌, eqb_ℤ, i32, i64}
use btclibwallet.Prelude.Bytes.{Bytes}
use btclibwallet.Prelude.Hex.{hex4}
use btclibwallet.Errors.{Error}
use btclibwallet.Types.{Transaction, TxInput, TxOutput, WalletInput, WalletOutput, TxInfoFromWallet}
use btclibwallet.Txhelper.{
  TransactionType, format_transaction_type, transaction_amount_and_direction,
}

-- wire.MsgTx, by the fields that the code reads.
pub record TxIn : Type 0 where
  pub previous_hash : String
  pub previous_index : ℕ
  pub previous_outpoint : String
  pub value_in : ℤ

pub record TxOut : Type 0 where
  pub value : ℤ
  pub version : ℕ
  pub pk_script : Bytes

pub record MsgTx : Type 0 where
  pub tx_in : List TxIn
  pub tx_out : List TxOut
  pub version : ℕ
  pub lock_time : ℕ
  pub expiry : ℕ

pub record Chain : Type 0 where
  -- txhelpers.MsgTxFromHex, SerializeSize, txhelpers.TxFeeRate, TxHash
  pub msg_tx_from_hex : String → Result Error MsgTx
  pub serialize_size : MsgTx → ℕ
  pub tx_fee_rate : MsgTx → ℤ × ℤ
  pub tx_hash : MsgTx → String
  -- wallet.TxTransactionType, and package stake
  pub tx_transaction_type : MsgTx → TransactionType
  pub is_sstx : MsgTx → Bool
  pub is_ssgen : MsgTx → Bool
  pub is_ssrtx : MsgTx → Bool
  pub ssgen_version : MsgTx → ℕ
  pub ssgen_vote_bits : MsgTx → ℕ
  pub is_stake_submission_tx_out : ℕ → Bool
  -- AddrFromSStxPkScrCommitment, where it gives an address
  pub commitment_address : Bytes → Option String
  -- ExtractPkScriptAddrs: the script class and the addresses
  pub extract_addrs : ℕ → Bytes → String × List String
  pub stake_submission_ty : String

-- The inner loop over the wallet's inputs, which the first match leaves.
override_input : TxInput → ℤ → List WalletInput → TxInput
override_input input i [] = input
override_input input i (w ∷ ws) =
    if eqb_ℤ w.index i
    then record input {
      account_name = w.wallet_account.account_name;
      account_number = w.wallet_account.account_number;
    }
    else override_input input i ws

abbrev pub external_input : TxIn → TxInput
external_input t = record {
  previous_transaction_hash = t.previous_hash;
  previous_transaction_index = i32 (pos t.previous_index);
  previous_outpoint = t.previous_outpoint;
  amount = t.value_in;
  account_name = "external";
  account_number = negsuc 0;
}

decode_tx_inputs_from : ℕ → List WalletInput → List TxIn → List TxInput
decode_tx_inputs_from i ws [] = []
decode_tx_inputs_from i ws (t ∷ ts) =
    override_input (external_input t) (i32 (pos i)) ws ∷ decode_tx_inputs_from (i + 1) ws ts

unfoldable pub decode_tx_inputs : MsgTx → List WalletInput → List TxInput
unfolding decode_tx_inputs_from override_input
decode_tx_inputs mtx wallet_inputs = decode_tx_inputs_from 0 wallet_inputs mtx.tx_in

override_output : TxOutput → List WalletOutput → TxOutput
override_output output [] = output
override_output output (w ∷ ws) =
    if eqb_ℤ w.index output.index
    then record output {
      is_internal = w.is_internal;
      address = w.address;
      account_name = w.wallet_account.account_name;
      account_number = w.wallet_account.account_number;
    }
    else override_output output ws

abbrev first_address : List String → String
first_address [] = ""
first_address (a ∷ more) = a

abbrev address_or_empty : Option String → String
address_or_empty none = ""
address_or_empty (some a) = a

-- The results of `voteInfo`, which are zero values for a transaction that is no vote.
pub record VoteInfo : Type 0 where
  pub version : ℕ
  pub last_block_valid : Bool
  pub vote_bits : String
  pub ticket_spent_hash : String

abbrev pub block_valid : ℕ
block_valid = 1

abbrev spent_by : MsgTx → ℕ → Option String
spent_by mtx i = elim (get_elem? mtx.tx_in i) [ none ↦ none | some t ↦ some t.previous_hash ]

-- The sums of the amounts that are the wallet's own, as int64.
unfoldable pub total_wallet_input : ℤ → List WalletInput → ℤ
total_wallet_input total [] = total
total_wallet_input total (w ∷ ws) = total_wallet_input (i64 (total +ℤ w.amount_in)) ws

unfoldable pub total_wallet_output : ℤ → List WalletOutput → ℤ
total_wallet_output total [] = total
total_wallet_output total (w ∷ ws) = total_wallet_output (i64 (total +ℤ w.amount_out)) ws

module _ (chain : Chain) where
  open chain use {
    msg_tx_from_hex, serialize_size, tx_fee_rate, tx_hash, tx_transaction_type, is_sstx, is_ssgen,
    is_ssrtx, ssgen_version, ssgen_vote_bits, is_stake_submission_tx_out, commitment_address,
    extract_addrs, stake_submission_ty,
  }

  -- The address and the script type of an output.
  output_script : Bool → ℕ → TxOut → String × String
  output_script ticket i t =
      if ticket && is_stake_submission_tx_out i
      then (address_or_empty (commitment_address t.pk_script), stake_submission_ty)
      else let (script_class, addrs) = extract_addrs t.version t.pk_script in
        (first_address addrs, script_class)

  external_output : Bool → ℕ → TxOut → TxOutput
  external_output ticket i t =
      let (address, script_type) = output_script ticket i t in
      record {
        index = i32 (pos i);
        amount = t.value;
        version = i32 (pos t.version);
        script_type = script_type;
        address = address;
        is_internal = false;
        account_name = "external";
        account_number = negsuc 0;
      }

  decode_tx_outputs_from : Bool → ℕ → List WalletOutput → List TxOut → List TxOutput
  decode_tx_outputs_from ticket i ws [] = []
  decode_tx_outputs_from ticket i ws (t ∷ ts) =
      override_output (external_output ticket i t) ws ∷ decode_tx_outputs_from ticket (i + 1) ws ts

  unfoldable pub decode_tx_outputs : MsgTx → List WalletOutput → List TxOutput
  unfolding decode_tx_outputs_from external_output output_script override_output
  decode_tx_outputs mtx wallet_outputs =
      decode_tx_outputs_from (is_sstx mtx) 0 wallet_outputs mtx.tx_out

  -- `msgTx.TxIn[1]` panics where a vote has one input.
  unfoldable pub vote_info : MsgTx → Option VoteInfo
  vote_info mtx =
      if is_ssgen mtx
      then elim (spent_by mtx 1) [
        | none ↦ none
        | some spent ↦ some (record {
          version = ssgen_version mtx;
          last_block_valid = not (bit_and (ssgen_vote_bits mtx) block_valid == 0);
          vote_bits = hex4 (ssgen_vote_bits mtx);
          ticket_spent_hash = spent;
        })
      ]
      else some
          (record { version = 0; last_block_valid = false; vote_bits = ""; ticket_spent_hash = "" })

  -- A revocation sets the hash of the ticket that it spends, from `msgTx.TxIn[0]`.
  unfoldable pub spent_ticket : MsgTx → String → Option String
  spent_ticket mtx from_vote = if is_ssrtx mtx then spent_by mtx 0 else some from_vote

  decoded : TxInfoFromWallet → MsgTx → VoteInfo → String → Transaction
  unfolding decode_tx_inputs decode_tx_outputs
  decoded w mtx v spent =
      let (fee, fee_rate) = tx_fee_rate mtx in
      let (amount, direction) =
        transaction_amount_and_direction (total_wallet_input (pos 0) w.inputs)
          (total_wallet_output (pos 0) w.outputs) fee in
      record {
        wallet_id = w.wallet_id;
        hash = tx_hash mtx;
        type = format_transaction_type (tx_transaction_type mtx);
        hex = w.hex;
        timestamp = w.timestamp;
        block_height = w.block_height;
        version = i32 (pos mtx.version);
        lock_time = i32 (pos mtx.lock_time);
        expiry = i32 (pos mtx.expiry);
        fee = fee;
        fee_rate = fee_rate;
        size = serialize_size mtx;
        direction = direction;
        amount = amount;
        inputs = decode_tx_inputs mtx w.inputs;
        outputs = decode_tx_outputs mtx w.outputs;
        vote_version = i32 (pos v.version);
        last_block_valid = v.last_block_valid;
        vote_bits = v.vote_bits;
        vote_reward = pos 0;
        ticket_spent_hash = spent;
        days_to_vote_or_revoke = pos 0;
      }

  -- `none` is a panic.
  unfoldable pub decode_transaction : TxInfoFromWallet → Option (Result Error Transaction)
  unfolding decoded
  decode_transaction w = elim (msg_tx_from_hex w.hex) [
    | err e ↦ some (err e)
    | ok mtx ↦ elim (vote_info mtx) [
      | none ↦ none
      | some v ↦ elim (spent_ticket mtx v.ticket_spent_hash) [
        | none ↦ none
        | some spent ↦ some (ok (decoded w mtx v spent))
      ]
    ]
  ]
