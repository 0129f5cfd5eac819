-- ===== src/Wallets.antt =====
-- multiwallet.go and wallet.go: the table of wallets and the changes of it. storm and the
-- cryptography are the parameter `Vault`; a passphrase of dcrwallet is its bytes.
pub mod Atomic
pub mod Created
pub mod Passphrase
mod Tests
use text.Mathlib.Text.{◌==◌ as str_eq}
use btclibwallet.Prelude.{
  ℕ, suc, Bool, true, false, not, ◌&&◌, ◌||◌, ◌==◌, String, Option, none, some, List, [], ◌∷◌, map,
  Result, ok, err, if◌then◌else◌, length, is_some,
}
use btclibwallet.Prelude.Bytes.{Bytes}
use btclibwallet.Errors.{
  Error, message, translate_error, err_invalid, err_exist, err_not_exist,
  err_sync_already_in_progress, err_wallet_not_loaded, err_changing_passphrase, err_saving_wallet,
  err_reserved_wallet_name,
}

pub record Wallet : Type 0 where
  pub id : ℕ
  pub name : String
  pub encrypted_seed : Option Bytes
  pub private_passphrase_type : ℕ
  pub opened : Bool
  pub watching_only : Bool
  pub synced : Bool

-- The documented answers: `change` is dcrwallet's ChangePrivatePassphrase, from the current
-- passphrase, the old and the new to the one that holds then; `unlocks` its Unlock.
pub record Vault : Type 1 where
  pub Db : Type 0
  pub save : Db → Wallet → Result Error Db
  pub delete_struct : Db → Wallet → Result Error Db
  -- `One` by the name: whether there is one, an error but not-found
  pub has_name : Db → String → Result Error Bool
  pub reserved_name : String → Bool
  pub decrypt_seed : Bytes → Bytes → Result Error String
  pub encrypt_seed : Bytes → String → Result Error Bytes
  pub change : Bytes → Bytes → Bytes → Result Error Bytes
  pub unlocks : Bytes → Bytes → Option Error
  pub remove_all : ℕ → Option Error
  -- a batch: `Begin`; in it the first save of a new wallet, which gives the id, and a save; its ends.
  -- Each gives the database that it leaves, an open transaction included, failed or not.
  pub begin : Db → Db × Option Error
  pub save_new : Db → Wallet → Db × Result Error ℕ
  pub save_again : Db → Wallet → Db × Option Error
  pub rollback : Db → Db
  pub commit_batch : Db → Db × Option Error
  pub dir_exists : ℕ → Result Error Bool
  pub backup_file : ℕ → Option Error
  pub default_name : ℕ → String

-- The wallets by id, the database, whether the network is connected, and for each wallet the
-- passphrase that dcrwallet holds.
pub record Wallets (Db : Type 0) : Type 0 where
  pub wallets : List Wallet
  pub db : Db
  pub connected : Bool
  pub secret : ℕ → Bytes

abbrev pub passphrase_type_pin : ℕ
passphrase_type_pin = 0

abbrev pub passphrase_type_pass : ℕ
passphrase_type_pass = 1

-- A buffer that was overwritten with zeros.
unfoldable pub zeroed : Bytes → Bytes
zeroed [] = []
zeroed (b ∷ bs) = 0 ∷ zeroed bs

unfoldable pub find_wallet : ℕ → List Wallet → Option Wallet
find_wallet id [] = none
find_wallet id (w ∷ ws) = let rest = find_wallet id ws in if w.id == id then some w else rest

-- A wallet is shared by the table and its users: a change is made in place.
unfoldable pub put_wallet : Wallet → List Wallet → List Wallet
put_wallet v [] = []
put_wallet v (w ∷ ws) = (if w.id == v.id then v else w) ∷ put_wallet v ws

unfoldable pub remove_wallet : ℕ → List Wallet → List Wallet
remove_wallet id [] = []
remove_wallet id (w ∷ ws) = let rest = remove_wallet id ws in if w.id == id then rest else w ∷ rest

unfoldable pub num_wallets_needing_seed_backup : List Wallet → ℕ
num_wallets_needing_seed_backup [] = 0
num_wallets_needing_seed_backup (w ∷ ws) =
    let rest = num_wallets_needing_seed_backup ws in
    if w.opened && is_some w.encrypted_seed then suc rest else rest

unfoldable pub opened_wallet_ids : List Wallet → List ℕ
opened_wallet_ids [] = []
opened_wallet_ids (w ∷ ws) =
    let rest = opened_wallet_ids ws in if w.opened then w.id ∷ rest else rest

module _ (V : Vault) where
  open V use {
    Db, save, delete_struct, has_name, reserved_name, decrypt_seed, encrypt_seed, change, unlocks,
    remove_all,
  }

  abbrev pub State : Type 0
  State = Wallets Db

  unfoldable pub wallet_with_id : State → ℕ → Option Wallet
  wallet_with_id s id = find_wallet id s.wallets

  unfoldable pub wallet_name_exists : State → String → Result Error Bool
  wallet_name_exists s name =
      if reserved_name name then err (message err_reserved_wallet_name) else has_name s.db name

  abbrev pub saved : State → Wallet → State × Option Error
  saved s w = elim (save s.db w) [ ok db ↦ (record s { db = db }, none) | err e ↦ (s, some e) ]

  -- The name is set before it is saved.
  unfoldable pub rename_wallet : State → ℕ → String → State × Option Error
  rename_wallet s id name =
      if reserved_name name
      then (s, some (message err_reserved_wallet_name))
      else elim (wallet_name_exists s name) [
        | err e ↦ (s, some (translate_error e))
        | ok true ↦ (s, some (message err_exist))
        | ok false ↦ elim (wallet_with_id s id) [
          | none ↦ (s, some (message err_invalid))
          | some w ↦
              let w' = record w { name = name } in
              saved (record s { wallets = put_wallet w' s.wallets }) w'
        ]
      ]

  -- `wallet.deleteWallet`: a wallet that signs asks for its passphrase; the files are then removed.
  unfoldable pub delete_files : State → Wallet → Bytes → Option Error
  delete_files s w pass =
      let files = remove_all w.id in
      if not w.opened
      then some (message err_wallet_not_loaded)
      else if w.watching_only
      then files
      else elim (unlocks (s.secret w.id) pass) [ some e ↦ some (translate_error e) | none ↦ files ]

  unfoldable pub delete_wallet : State → ℕ → Bytes → State × Option Error
  delete_wallet s id pass =
      if s.connected
      then (s, some (message err_sync_already_in_progress))
      else elim (wallet_with_id s id) [
        | none ↦ (s, some (message err_not_exist))
        | some w ↦ elim (delete_files s w pass) [
          | some e ↦ (s, some (translate_error e))
          | none ↦ elim (delete_struct s.db w) [
            | err e ↦ (s, some (translate_error e))
            | ok db ↦ (record s { db = db; wallets = remove_wallet id s.wallets }, none)
          ]
        ]
      ]

  unfoldable pub verify_seed_for_wallet : State → ℕ → String → Bytes → State × Result Error Bool
  verify_seed_for_wallet s id seed pass = elim (wallet_with_id s id) [
    | none ↦ (s, err (message err_not_exist))
    | some w ↦ elim (decrypt_seed pass (elim w.encrypted_seed [ none ↦ [] | some b ↦ b ])) [
      | err e ↦ (s, err e)
      | ok d ↦
          if str_eq d seed
          then (let w' = record w { encrypted_seed = none } in
              let r = saved (record s { wallets = put_wallet w' s.wallets }) w' in
              (r.0, elim r.1 [ none ↦ ok true | some e ↦ err (translate_error e) ]))
          else (s, err (message err_invalid))
    ]
  ]
