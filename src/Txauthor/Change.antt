-- ===== src/Txauthor/Change.antt =====
-- The author's own change address is derived once.
use btclibwallet.Prelude.{
  String, ◌≡◌, refl, ap, ◌∙◌, false, ok, arith, inl, inr, Result-cases, Bool-cases,
}
use text.Mathlib.Text.{◌==◌ as str_eq}
use btclibwallet.Txauthor.{
  Author, TxAuthor, ChangeSource, make_tx_change_source, change_source, change_source_of,
}

module _ (A : Author) where
  open A use {Wallet, new_change_address}

  -- If dcrwallet never hands out an empty address, a `changeSource` that succeeds has the source
  -- of the author's change address afterwards; a second one gives the same, and
  -- neither the author nor the wallet changes, so that no further address is derived.
  pub change_source_once :
      (tx tx' : TxAuthor) (w w' : Wallet) (c : ChangeSource)
      → ((v : Wallet) (a : String) → (new_change_address v).0 ≡ ok a → str_eq a "" ≡ false)
      → change_source A tx w ≡ (ok c, tx', w')
      → (make_tx_change_source A tx'.change_address ≡ ok c)
        × (tx'.destinations ≡ tx.destinations)
        × (change_source A tx' w' ≡ (ok c, tx', w'))
  unfolding change_source change_source_of
  change_source_once tx tx' w w' c proper h = elim (Bool-cases (str_eq tx.change_address "")) [
    | inr set ↦ elim (Result-cases (make_tx_change_source A tx.change_address)) [
      | inl (x, e) ↦
          let same : tx' ≡ tx = ground (arith, set, e) in
          let kept : w' ≡ w = ground (arith, set, e) in
          let that : x ≡ c = ground (arith, set, e) in
          rw (same, kept) (e ∙ ap ok that, refl, ground (arith, set, e, that))
      | inr (x, e) ↦ absurd (ground (arith, set, e))
    ]
    | inl unset ↦ elim (Result-cases (new_change_address w).0) [
      | inr (x, n) ↦ absurd (ground (arith, unset, n))
      | inl (a, n) ↦ elim (Result-cases (make_tx_change_source A a)) [
        | inl (x, e) ↦
            let same : tx' ≡ record tx { change_address = a } = ground (arith, unset, n, e) in
            let kept : w' ≡ (new_change_address w).1 = ground (arith, unset, n, e) in
            let that : x ≡ c = ground (arith, unset, n, e) in
            rw (same, kept) (e ∙ ap ok that, refl, ground (arith, proper w a n, e, that))
        | inr (x, e) ↦ absurd (ground (arith, unset, n, e))
      ]
    ]
  ]
