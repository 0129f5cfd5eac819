-- ===== src/Types.antt =====
-- types.go: the transaction that is stored in the index, and what the wallet knows of one.
use btclibwallet.Prelude.{ℕ, String, Bool, List}
use btclibwallet.Prelude.Int.{ℤ}

pub record TxInput : Type 0 where
  pub previous_transaction_hash : String
  pub previous_transaction_index : ℤ
  pub previous_outpoint : String
  pub amount : ℤ
  pub account_name : String
  pub account_number : ℤ

pub record TxOutput : Type 0 where
  pub index : ℤ
  pub amount : ℤ
  pub version : ℤ
  pub script_type : String
  pub address : String
  pub is_internal : Bool
  pub account_name : String
  pub account_number : ℤ

pub record Transaction : Type 0 where
  pub wallet_id : ℕ
  pub hash : String
  pub type : String
  pub hex : String
  pub timestamp : ℤ
  pub block_height : ℤ
  pub version : ℤ
  pub lock_time : ℤ
  pub expiry : ℤ
  pub fee : ℤ
  pub fee_rate : ℤ
  pub size : ℕ
  pub direction : ℤ
  pub amount : ℤ
  pub inputs : List TxInput
  pub outputs : List TxOutput
  pub vote_version : ℤ
  pub last_block_valid : Bool
  pub vote_bits : String
  pub vote_reward : ℤ
  pub ticket_spent_hash : String
  pub days_to_vote_or_revoke : ℤ

pub record WalletAccount : Type 0 where
  pub account_number : ℤ
  pub account_name : String

pub record WalletInput : Type 0 where
  pub index : ℤ
  pub amount_in : ℤ
  pub wallet_account : WalletAccount

pub record WalletOutput : Type 0 where
  pub index : ℤ
  pub amount_out : ℤ
  pub is_internal : Bool
  pub address : String
  pub wallet_account : WalletAccount

pub record TxInfoFromWallet : Type 0 where
  pub wallet_id : ℕ
  pub hex : String
  pub timestamp : ℤ
  pub block_height : ℤ
  pub inputs : List WalletInput
  pub outputs : List WalletOutput
