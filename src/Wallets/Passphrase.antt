-- ===== src/Wallets/Passphrase.antt =====
-- multiwallet.go, `ChangePrivatePassphraseForWallet`, and wallet.go, `changePrivatePassphrase`, which
-- overwrites both passphrases with zeros.
use btclibwallet.Prelude.{
  ℕ, ◌≡◌, ◌≢◌, ◌∙◌, ap, sym, true, not, ◌&&◌, ◌==◌, Option, none, some, Result, ok, err,
  if◌then◌else◌, Result-cases, arith, inl, inr,
}
use btclibwallet.Prelude.Bytes.{Bytes}
use btclibwallet.Errors.{
  Error, message, translate_error, err_invalid, err_changing_passphrase, err_saving_wallet,
}
use btclibwallet.Wallets.{
  Wallet, Vault, State, passphrase_type_pin, passphrase_type_pass, zeroed, put_wallet,
  wallet_with_id,
}

module _ (V : Vault) where
  open V use {Db, save, decrypt_seed, encrypt_seed, change}

  unfoldable pub set_secret : State V → ℕ → Bytes → State V
  set_secret s id b = record s { secret = λ i. if i == id then b else s.secret i }

  -- The seed that is kept is encrypted anew.
  unfoldable pub new_seed : Option Bytes → Bytes → Bytes → Result Error (Option Bytes)
  new_seed none old new = ok none
  new_seed (some seed) old new = elim (decrypt_seed old seed) [
    | err e ↦ err e
    | ok d ↦ elim (encrypt_seed new d) [ err e ↦ err e | ok b ↦ ok (some b) ]
  ]

  -- The undo is called with the buffers that the first change has zeroed.
  unfoldable pub undo_change : State V → ℕ → Bytes → Bytes → State V × Option Error
  undo_change s id old new = elim (change (s.secret id) (zeroed new) (zeroed old)) [
    | err e ↦ (s, some (message err_saving_wallet))
    | ok b ↦ (set_secret s id b, some (message err_changing_passphrase))
  ]

  unfoldable pub save_changed : State V → Wallet → Bytes → Bytes → State V × Option Error
  save_changed s w old new = elim (save s.db w) [
    | ok db ↦ (record s { db = db }, none)
    | err e ↦ undo_change s w.id old new
  ]

  unfoldable pub change_wallet : State V → Wallet → Bytes → Bytes → ℕ → State V × Option Error
  change_wallet s w old new type' = elim (new_seed w.encrypted_seed old new) [
    | err e ↦ (s, some e)
    | ok seed ↦ elim (change (s.secret w.id) old new) [
      | err e ↦ (s, some (translate_error (translate_error e)))
      | ok b ↦
          let w' = record w { encrypted_seed = seed; private_passphrase_type = type' } in
          let changed = set_secret s w.id b in
          save_changed (record changed { wallets = put_wallet w' s.wallets }) w' old new
    ]
  ]

  unfoldable pub change_private_passphrase_for_wallet :
      State V → ℕ → Bytes → Bytes → ℕ → State V × Option Error
  change_private_passphrase_for_wallet s id old new type' =
      if not (type' == passphrase_type_pin) && not (type' == passphrase_type_pass)
      then (s, some (message err_invalid))
      else elim (wallet_with_id V s id) [
        | none ↦ (s, some (message err_invalid))
        | some w ↦ change_wallet s w old new type'
      ]

  -- The documented behaviour of dcrwallet: the old passphrase has to be the current one.
  pub record IsVault : Type 0 where
    pub change-old : (cur old new b : Bytes) → change cur old new ≡ ok b → (old ≡ cur) × (b ≡ new)

  undo_change-fails :
      (s : State V) (id : ℕ) (old new : Bytes)
      → IsVault
      → s.secret id ≢ zeroed new
      → undo_change s id old new ≡ (s, some (message err_saving_wallet))
  unfolding undo_change
  undo_change-fails s id old new v n =
      elim (Result-cases (change (s.secret id) (zeroed new) (zeroed old))) [
        | inl (b, e) ↦ absurd (n (sym (v.change-old (s.secret id) (zeroed new) (zeroed old) b e).0))
        | inr (x, e) ↦ ground (arith, e)
      ]

  -- Where the wallet cannot be saved after its passphrase was changed, the change is not undone,
  -- whenever the new passphrase is not all zeros: dcrwallet holds the new passphrase, and the call
  -- returns the error of a wallet that could not be saved.
  pub change_wallet-kept :
      (s : State V) (w : Wallet) (old new b : Bytes) (type' : ℕ) (seed : Option Bytes) (e : Error)
      → IsVault
      → new_seed w.encrypted_seed old new ≡ ok seed
      → change (s.secret w.id) old new ≡ ok b
      → save s.db (record w { encrypted_seed = seed; private_passphrase_type = type' }) ≡ err e
      → new ≢ zeroed new
      → ((change_wallet s w old new type').0.secret w.id ≡ new)
        × ((change_wallet s w old new type').1 ≡ some (message err_saving_wallet))
        × ((change_wallet s w old new type').0.db ≡ s.db)
  unfolding change_wallet save_changed set_secret
  change_wallet-kept s w old new b type' seed e v ns ch sv nz =
      let w' : Wallet = record w { encrypted_seed = seed; private_passphrase_type = type' } in
      let s' : State V = record s {
        wallets = put_wallet w' s.wallets;
        secret = λ i. if i == w.id then b else s.secret i;
      } in
      let same : (w.id == w.id) ≡ true = ground arith in
      let bn : b ≡ new = (v.change-old (s.secret w.id) old new b ch).1 in
      let cur : s'.secret w.id ≡ new = rw same bn in
      let u = undo_change-fails s' w.id old new v (λ h. nz (sym cur ∙ h)) in
      let all : change_wallet s w old new type' ≡ (s', some (message err_saving_wallet)) =
        rw (change_wallet, ns, ch, save_changed, sv) u in
      (
        ap (λ (r : State V × Option Error). r.0.secret w.id) all ∙ cur,
        ap (λ (r : State V × Option Error). r.1) all,
        ap (λ (r : State V × Option Error). r.0.db) all,
      )
