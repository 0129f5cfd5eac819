-- ===== src/Errors.antt =====
-- errors.go: the error codes that the package hands out, and `translateError`.
-- An error of dcrwallet's errors package is a kind with a text; the kinds are those that the code
-- names, and `other` for the rest.
mod Tests
use btclibwallet.Prelude.{String}

pub data Kind : Type 0 where
  other invalid not_exist exist io insufficient_balance passphrase no_peers : Kind
  permission protocol consensus : Kind

-- `errors.New` and `fmt.Errorf` give a text; `errors.E` gives an error with a kind.
pub data Error : Type 0 where
  message : String → Error
  with_kind : Kind → String → Error

abbrev pub err_insufficient_balance : String
err_insufficient_balance = "insufficient_balance"

abbrev pub err_invalid : String
err_invalid = "invalid"

abbrev pub err_wallet_not_loaded : String
err_wallet_not_loaded = "wallet_not_loaded"

abbrev pub err_reserved_wallet_name : String
err_reserved_wallet_name = "wallet_name_reserved"

abbrev pub err_invalid_passphrase : String
err_invalid_passphrase = "invalid_passphrase"

abbrev pub err_not_connected : String
err_not_connected = "not_connected"

abbrev pub err_exist : String
err_exist = "exists"

abbrev pub err_not_exist : String
err_not_exist = "not_exists"

abbrev pub err_no_peers : String
err_no_peers = "no_peers"

abbrev pub err_sync_already_in_progress : String
err_sync_already_in_progress = "sync_already_in_progress"

abbrev pub err_invalid_peers : String
err_invalid_peers = "invalid_peers"

abbrev pub err_listener_already_exist : String
err_listener_already_exist = "listener_already_exist"

abbrev pub err_changing_passphrase : String
err_changing_passphrase = "err_changing_passphrase"

abbrev pub err_saving_wallet : String
err_saving_wallet = "err_saving_wallet"

unfoldable pub translate_error : Error → Error
translate_error (with_kind insufficient_balance t) = message err_insufficient_balance
translate_error (with_kind not_exist t) = message err_not_exist
translate_error (with_kind passphrase t) = message err_invalid_passphrase
translate_error (with_kind no_peers t) = message err_no_peers
translate_error e = e
