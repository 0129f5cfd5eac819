-- ===== src/Wallets/Created.antt =====
-- multiwallet.go, `saveNewWallet`, and the batch of multiwallet_utils.go that it runs in.
use text.Mathlib.Text.{◌==◌ as str_eq}
use btclibwallet.Prelude.{
  ℕ, true, false, Option, none, some, [], ◌∷◌, ◌++◌, Result, ok, err, if◌then◌else◌,
}
use btclibwallet.Errors.{Error, message, translate_error, err_exist, err_sync_already_in_progress}
use btclibwallet.Wallets.{Wallet, Vault, State, wallet_name_exists}

module _ (V : Vault) where
  open V use {
    Db, begin, save_new, save_again, rollback, commit_batch, dir_exists, backup_file, default_name,
  }

  -- A file that is in the way of the wallet's directory is moved.
  unfoldable pub free_directory : ℕ → Option Error
  free_directory id = elim (dir_exists id) [
    | err e ↦ some e
    | ok true ↦ backup_file id
    | ok false ↦ none
  ]

  unfoldable pub complete_wallet : Wallet → ℕ → Wallet
  complete_wallet w id = record w {
    id = id;
    name = if str_eq w.name "" then default_name id else w.name;
  }

  -- The function of the batch: the database that it leaves, and its result. `setup_wallet` does not
  -- panic.
  unfoldable pub new_wallet_op : Wallet → (Wallet → Option Error) → Db → Db × Result Error Wallet
  new_wallet_op w setup_wallet db =
      let first = save_new db w in
      elim first.1 [
        | err e ↦ (first.0, err e)
        | ok id ↦ elim (free_directory id) [
          | some e ↦ (first.0, err e)
          | none ↦
              let second = save_again first.0 (complete_wallet w id) in
              elim second.1 [
                | some e ↦ (second.0, err e)
                | none ↦ elim (setup_wallet (complete_wallet w id)) [
                  | some e ↦ (second.0, err e)
                  | none ↦ (second.0, ok (complete_wallet w id))
                ]
              ]
        ]
      ]

  -- The deferred end of a batch whose function left this database and this result.
  unfoldable pub end_batch : Db × Result Error Wallet → Db × Result Error Wallet
  end_batch (db, err e) = (rollback db, err e)
  end_batch (db, ok w) = elim (commit_batch db).1 [
    | some e ↦ ((commit_batch db).0, err e)
    | none ↦ ((commit_batch db).0, ok w)
  ]

  unfoldable pub batch_db_transaction :
      (Db → Db × Result Error Wallet) → Db → Db × Result Error Wallet
  batch_db_transaction op db = elim (begin db).1 [
    | some e ↦ ((begin db).0, err e)
    | none ↦ end_batch (op (begin db).0)
  ]

  unfoldable pub save_new_wallet :
      State V → Wallet → (Wallet → Option Error) → State V × Result Error Wallet
  save_new_wallet s w setup_wallet = elim (wallet_name_exists V s w.name) [
    | err e ↦ (s, err e)
    | ok true ↦ (s, err (message err_exist))
    | ok false ↦
        if s.connected
        then (s, err (message err_sync_already_in_progress))
        else let r = batch_db_transaction (new_wallet_op w setup_wallet) s.db in
          elim r.1 [
            | err e ↦ (record s { db = r.0 }, err (translate_error e))
            | ok w' ↦ (record s { db = r.0; wallets = s.wallets ++ w' ∷ [] }, ok w')
          ]
  ]
