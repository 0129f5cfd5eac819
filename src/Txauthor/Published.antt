-- ===== src/Txauthor/Published.antt =====
-- What a broadcast takes no notice of, and what it leaves.
use btclibwallet.Prelude.{ℕ, ◌≡◌, List, some, Option-cases, ok, err, arith, inl, inr, Result-cases}
use btclibwallet.Prelude.Bytes.{Bytes}
use btclibwallet.Errors.{Error, message, err_invalid_passphrase}
use btclibwallet.Txauthor.{Author, TxAuthor, construct_transaction}
use btclibwallet.Txauthor.Broadcast.{
  Network, zeroed, to_msg, sign_and_publish, unlock_and_send, broadcast,
}

module _ (A : Author) (N : Network A) where
  open A use {Wallet, Authored}
  open N use {
    Backend, MsgTx, network_backend, serialize, deserialize, unlock, time_out, sign_transaction,
    publish_transaction, estimated_size, fee_for_serialize_size, spendable_for_account,
  }

  -- The network whose signing reports these lists of invalid signatures and does the rest as it did.
  abbrev pub reporting : (Wallet → MsgTx → List ℕ) → Network A
  reporting bad = record N {
    sign_transaction = λ w m. elim (sign_transaction w m) [
      | err e ↦ err e
      | ok (signed, invalid_sigs) ↦ ok (signed, bad w m)
    ];
  }

  sign_and_publish-reporting :
      (bad : Wallet → MsgTx → List ℕ) (n : Backend) (msg : MsgTx) (w : Wallet)
      → sign_and_publish A (reporting bad) n msg w ≡ sign_and_publish A N n msg w
  unfolding sign_and_publish
  sign_and_publish-reporting bad n msg w = elim (Result-cases (sign_transaction w msg)) [
    | inl (s, e) ↦ ground (arith, e)
    | inr (x, e) ↦ ground (arith, e)
  ]

  unlock_and_send-reporting :
      (bad : Wallet → MsgTx → List ℕ) (pass : Bytes) (n : Backend) (msg : MsgTx) (w : Wallet)
      → unlock_and_send A (reporting bad) pass n msg w ≡ unlock_and_send A N pass n msg w
  unfolding unlock_and_send
  unlock_and_send-reporting bad pass n msg w = elim (Option-cases (unlock w pass).0) [
    | inr (x, e) ↦ ground (arith, e)
    | inl e ↦ ground (arith, e, sign_and_publish-reporting bad n msg (unlock w pass).1)
  ]

  -- A broadcast takes no notice of the inputs whose signature is invalid: whatever list of them the
  -- signing reports, its result, the author, the wallet and the passphrase that are left are the
  -- same, so that a transaction with an invalid signature is published like any other.
  pub broadcast-reporting :
      (bad : Wallet → MsgTx → List ℕ) (tx : TxAuthor) (w : Wallet) (pass : Bytes)
      → broadcast A (reporting bad) tx w pass ≡ broadcast A N tx w pass
  unfolding broadcast to_msg
  broadcast-reporting bad tx w pass = elim (Result-cases (network_backend w)) [
    | inr (x, e) ↦ ground (arith, e)
    | inl (n, e1) ↦ elim (Result-cases (construct_transaction A tx w).0) [
      | inr (x, e) ↦ ground (arith, e1, e)
      | inl (a, e2) ↦ elim (Result-cases (to_msg A N a)) [
        | inr (x, e) ↦ ground (arith, e1, e2, e)
        | inl (msg, e3) ↦ ground (
          arith,
          e1,
          e2,
          e3,
          unlock_and_send-reporting bad pass n msg (construct_transaction A tx w).2,
        )
      ]
    ]
  ]

  passphrase_zeroed :
      (tx : TxAuthor) (w : Wallet) (pass : Bytes) → (broadcast A N tx w pass).3 ≡ zeroed pass
  unfolding broadcast
  passphrase_zeroed tx w pass = elim (Result-cases (network_backend w)) [
    | inr (x, e) ↦ ground (arith, e)
    | inl (n, e1) ↦ elim (Result-cases (construct_transaction A tx w).0) [
      | inr (x, e) ↦ ground (arith, e1, e)
      | inl (a, e2) ↦ elim (Result-cases (to_msg A N a)) [
        | inr (x, e) ↦ ground (arith, e1, e2, e)
        | inl (msg, e3) ↦ ground (arith, e1, e2, e3)
      ]
    ]
  ]

  -- Whatever it returns, a broadcast zeroes every byte of the caller's passphrase; and a
  -- passphrase that does not unlock the wallet gives the error for that and publishes nothing.
  pub broadcast-passphrase :
      (tx : TxAuthor) (w : Wallet) (pass : Bytes)
      → ((broadcast A N tx w pass).3 ≡ zeroed pass)
        × ((n : Backend) (a : Authored) (msg : MsgTx) (e : Error)
            → network_backend w ≡ ok n
            → (construct_transaction A tx w).0 ≡ ok a
            → to_msg A N a ≡ ok msg
            → (unlock (construct_transaction A tx w).2 pass).0 ≡ some e
            → ((broadcast A N tx w pass).0 ≡ err (message err_invalid_passphrase))
              × ((broadcast A N tx w pass).2
                  ≡ time_out (unlock (construct_transaction A tx w).2 pass).1))
  unfolding broadcast unlock_and_send
  broadcast-passphrase tx w pass = (
    passphrase_zeroed tx w pass,
    λ n a msg e h1 h2 h3 h4. (ground (arith, h1, h2, h3, h4), ground (arith, h1, h2, h3, h4)),
  )
