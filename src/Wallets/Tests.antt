-- ===== src/Wallets/Tests.antt =====
-- Runs of the table of wallets at concrete inputs. The database is the list of what was saved; the
-- passphrase is compared, and a seed is encrypted by putting the passphrase's first byte before it.
use text.Mathlib.Text.{◌==◌ as str_eq}
use btclibwallet.Prelude.{
  suc, ◌≡◌, refl, Bool, true, false, none, some, List, [], ◌∷◌, ok, err, if◌then◌else◌, inl, inr,
  length, Bool-cases, arith,
}
use btclibwallet.Prelude.Bytes.{bytes_eq, eq_of_bytes_eq}
use btclibwallet.Errors.{message, err_saving_wallet}
use btclibwallet.Wallets.{Wallet, Vault, State, zeroed}
use btclibwallet.Wallets.Created.{save_new_wallet}
use btclibwallet.Wallets.Atomic.{IsBatching, IsCreated, save_new_wallet_atomic}
use btclibwallet.Wallets.Passphrase.{IsVault, new_seed, change_wallet, change_wallet-kept}

-- What is committed, and what is pending in the transaction that is open.
pub record TestDb : Type 0 where
  pub committed : List Wallet
  pub uncommitted : List Wallet
  pub in_batch : Bool

abbrev rows : List Wallet → TestDb
rows ws = record { committed = ws; uncommitted = []; in_batch = false }

-- A database that refuses to save a wallet outside of a batch, or one that saves.
abbrev vault : Bool → Vault
vault refuses = record {
  Db = TestDb;
  save = λ db w.
      if refuses
      then err (message "disk full")
      else ok (record db { committed = w ∷ db.committed });
  delete_struct = λ db w. ok (rows []);
  has_name = λ db n. ok false;
  reserved_name = λ n. str_eq n "wallet-1";
  decrypt_seed = λ pass seed. ok "seed";
  encrypt_seed = λ pass seed. ok pass;
  change = λ cur old new. if bytes_eq old cur then ok new else err (message "invalid passphrase");
  unlocks = λ cur pass. none;
  remove_all = λ id. none;
  begin = λ db. (record db { uncommitted = db.committed; in_batch = true }, none);
  save_new =
      λ db w. (record db { uncommitted = w ∷ db.uncommitted }, ok (suc (length db.uncommitted)));
  save_again = λ db w. (record db { uncommitted = w ∷ db.uncommitted }, none);
  rollback = λ db. record db { in_batch = false };
  commit_batch = λ db. (record db { committed = db.uncommitted; in_batch = false }, none);
  dir_exists = λ id. ok false;
  backup_file = λ id. none;
  default_name = λ id. "wallet-1";
}

vault-IsVault : IsVault (vault true)
vault-IsVault = record {
  change-old = λ cur old new b h. elim (Bool-cases (bytes_eq old cur)) [
    | inl y ↦ (eq_of_bytes_eq old cur y, ground (arith, h, y))
    | inr n ↦ absurd (ground (arith, h, n))
  ];
}

abbrev wallet : Wallet
wallet = record {
  id = 1;
  name = "savings";
  encrypted_seed = some (5 ∷ []);
  private_passphrase_type = 1;
  opened = true;
  watching_only = false;
  synced = false;
}

abbrev held : State (vault true)
held = record {
  wallets = wallet ∷ [];
  db = rows (wallet ∷ []);
  connected = false;
  secret = λ i. 5 ∷ [];
}

change_wallet-kept_example :
    ((change_wallet (vault true) held wallet (5 ∷ []) (6 ∷ []) 0).0.secret 1 ≡ 6 ∷ [])
    × ((change_wallet (vault true) held wallet (5 ∷ []) (6 ∷ []) 0).1
        ≡ some (message err_saving_wallet))
    × ((change_wallet (vault true) held wallet (5 ∷ []) (6 ∷ []) 0).0.db ≡ rows (wallet ∷ []))
unfolding new_seed bytes_eq zeroed
change_wallet-kept_example =
    change_wallet-kept (vault true) held wallet (5 ∷ []) (6 ∷ []) (6 ∷ []) 0 (some (6 ∷ []))
      (message "disk full") vault-IsVault refl refl refl (λ h. ground (arith, h))

abbrev empty : State (vault false)
empty = record { wallets = []; db = rows []; connected = false; secret = λ i. [] }

vault-IsBatching : IsBatching (vault false) (List Wallet)
vault-IsBatching = record {
  contents = λ db. db.committed;
  pending = λ db. db.uncommitted;
  is_open = λ db. db.in_batch;
  begin-open = λ d h. refl;
  begin-failed = λ d e h. absurd (cc h);
  contents-begin = λ d. refl;
  save_new-open = λ d w o. (o, refl);
  save_again-open = λ d w o. (o, refl);
  rollback-open = λ d o. (refl, refl);
  commit-closed = λ d o. refl;
  contents-commit = λ d o h. refl;
  contents-commit_failed = λ d e o h. absurd (cc h);
}

-- The set-up of the wallet fails, so that the batch is rolled back.
save_new_wallet_atomic_example :
    IsCreated
      (vault false)
      vault-IsBatching
      empty
      wallet
      (λ w. some (message err_saving_wallet))
      (save_new_wallet (vault false) empty wallet (λ w. some (message err_saving_wallet)))
unfolding vault-IsBatching
save_new_wallet_atomic_example =
    save_new_wallet_atomic (vault false) vault-IsBatching empty wallet
      (λ w. some (message err_saving_wallet)) refl
