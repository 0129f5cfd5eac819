-- ===== src/Txauthor/Broadcast.antt =====
-- txauthor.go: `Broadcast` and the estimates, over what dcrwallet does with a transaction.
use btclibwallet.Prelude.{ℕ, Option, none, some, List, map, Result, ok, err, if◌then◌else◌}
use btclibwallet.Prelude.Int.{ℤ, pos, ◌-ℤ◌, ltb_ℤ, i64}
use btclibwallet.Prelude.Bytes.{Bytes}
use btclibwallet.Errors.{Error, message, err_invalid_passphrase, translate_error}
use btclibwallet.Txauthor.{Author, TxAuthor, construct_transaction}

pub record Network (A : Author) : Type 1 where
  pub Backend : Type 0
  pub MsgTx : Type 0
  pub network_backend : A.Wallet → Result Error Backend
  pub change_index : A.Authored → ℤ
  pub randomize_change_position : A.Authored → A.Authored
  -- wire.MsgTx's Serialize and Deserialize
  pub serialize_unsigned : A.Authored → Result Error Bytes
  pub serialize : MsgTx → Result Error Bytes
  pub deserialize : Bytes → Result Error MsgTx
  -- Unlock with a channel as its timeout: its error and the wallet that it leaves, failed or not; and
  -- what the wallet, which may have left the channel aside, does when the channel is sent to
  pub unlock : A.Wallet → Bytes → Option Error × A.Wallet
  pub time_out : A.Wallet → A.Wallet
  -- SignTransaction changes the transaction and reports the inputs whose signature is invalid
  pub sign_transaction : A.Wallet → MsgTx → Result Error (MsgTx × List ℕ)
  pub publish_transaction : A.Wallet → MsgTx → Bytes → Backend → Result Error Bytes × A.Wallet
  pub estimated_size : A.Authored → ℕ
  pub fee_for_serialize_size : ℕ → ℤ
  pub spendable_for_account : A.Wallet → Result Error ℤ

-- The deferred loop over the passphrase.
abbrev pub zeroed : Bytes → Bytes
zeroed p = map (λ b. 0) p

module _ (A : Author) (N : Network A) where
  open A use {Wallet, Authored}
  open N use {
    Backend, MsgTx, network_backend, change_index, randomize_change_position, serialize_unsigned,
    serialize, deserialize, unlock, time_out, sign_transaction, publish_transaction, estimated_size,
    fee_for_serialize_size, spendable_for_account,
  }

  -- The unsigned transaction, its change moved, written and read again.
  unfoldable pub to_msg : Authored → Result Error MsgTx
  to_msg a =
      let moved = if ltb_ℤ (change_index a) (pos 0) then a else randomize_change_position a in
      elim (serialize_unsigned moved) [ err e ↦ err e | ok bytes ↦ deserialize bytes ]

  -- From the unlocked wallet on. The indexes of the invalid signatures are gathered, and nothing
  -- looks at them.
  unfoldable pub sign_and_publish : Backend → MsgTx → Wallet → Result Error Bytes × Wallet
  sign_and_publish n msg w = elim (sign_transaction w msg) [
    | err e ↦ (err e, w)
    | ok (signed, invalid_sigs) ↦ elim (serialize signed) [
      | err e ↦ (err e, w)
      | ok bytes ↦ elim (deserialize bytes) [
        | err e ↦ (err e, w)
        | ok again ↦
            (let (r, w') = publish_transaction w again bytes n in
              elim r [ err e ↦ (err (translate_error e), w') | ok hash ↦ (ok hash, w') ])
      ]
    ]
  ]

  -- The channel is sent to when the function returns, also where the wallet was not unlocked.
  unfoldable pub unlock_and_send : Bytes → Backend → MsgTx → Wallet → Result Error Bytes × Wallet
  unlock_and_send passphrase n msg w =
      let (e, opened) = unlock w passphrase in
      elim e [
        | some x ↦ (err (message err_invalid_passphrase), time_out opened)
        | none ↦ (let (r, w') = sign_and_publish n msg opened in (r, time_out w'))
      ]

  -- The result, the author, the wallet and the caller's passphrase.
  unfoldable pub broadcast :
      TxAuthor → Wallet → Bytes → Result Error Bytes × TxAuthor × Wallet × Bytes
  broadcast tx w passphrase = elim (network_backend w) [
    | err e ↦ (err e, tx, w, zeroed passphrase)
    | ok n ↦
        (let (r, tx', w') = construct_transaction A tx w in
          elim r [
            | err e ↦ (err (translate_error e), tx', w', zeroed passphrase)
            | ok a ↦ elim (to_msg a) [
              | err e ↦ (err e, tx', w', zeroed passphrase)
              | ok msg ↦
                  (let (h, w'') = unlock_and_send passphrase n msg w' in
                    (h, tx', w'', zeroed passphrase))
            ]
          ])
  ]

  -- The size and the fee.
  unfoldable pub estimate_fee_and_size :
      TxAuthor → Wallet → Result Error (ℕ × ℤ) × TxAuthor × Wallet
  estimate_fee_and_size tx w =
      let (r, tx', w') = construct_transaction A tx w in
      elim r [
        | err e ↦ (err (translate_error e), tx', w')
        | ok a ↦ (ok (estimated_size a, fee_for_serialize_size (estimated_size a)), tx', w')
      ]

  unfoldable pub estimate_max_send_amount : TxAuthor → Wallet → Result Error ℤ × TxAuthor × Wallet
  estimate_max_send_amount tx w =
      let (r, tx', w') = estimate_fee_and_size tx w in
      elim r [
        | err e ↦ (err e, tx', w')
        | ok (size, fee) ↦ elim (spendable_for_account w') [
          | err e ↦ (err e, tx', w')
          | ok balance ↦ (ok (i64 (balance -ℤ fee)), tx', w')
        ]
      ]
