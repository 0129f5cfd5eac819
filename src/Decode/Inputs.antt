-- ===== src/Decode/Inputs.antt =====
-- Which account a decoded input is given.
use btclibwallet.Prelude.{
  ℕ, zero, suc, ◌+◌, ◌≡◌, ◌≢◌, refl, Option, none, some, List, [], ◌∷◌, get_elem?, arith, ap, subst,
  ◌∙◌,
}
use btclibwallet.Prelude.Int.{ℤ, pos, i32}
use btclibwallet.Types.{TxInput, WalletInput, WalletAccount}
use btclibwallet.Decode.{
  MsgTx, TxIn, decode_tx_inputs, decode_tx_inputs_from, override_input, external_input,
}

-- The account of the first wallet input with this index, if there is one.
pub data Owner (i : ℤ) : List WalletInput → Option WalletAccount → Type 0 where
  nobody : Owner i [] none
  first :
      {w : WalletInput} {ws : List WalletInput}
      → w.index ≡ i
      → Owner i (w ∷ ws) (some w.wallet_account)
  later :
      {w : WalletInput} {ws : List WalletInput} {o : Option WalletAccount}
      → w.index ≢ i
      → Owner i ws o
      → Owner i (w ∷ ws) o

abbrev pub with_owner : TxInput → Option WalletAccount → TxInput
with_owner t none = t
with_owner t (some a) = record t {
  account_name = a.account_name;
  account_number = a.account_number;
}

override_input-Owner :
    (t : TxInput) (i : ℤ) (ws : List WalletInput) (o : Option WalletAccount)
    → Owner i ws o
    → override_input t i ws ≡ with_owner t o
unfolding override_input
override_input-Owner t i ws o nobody = refl
override_input-Owner t i (w ∷ ws) o (first e) = ground (arith, e)
override_input-Owner t i (w ∷ ws) o (later ne r) =
    ground (arith, ne, override_input-Owner t i ws o r)

decode_tx_inputs_from-get :
    (k n j : ℕ) (ws : List WalletInput) (ts : List TxIn) (t : TxIn) (o : Option WalletAccount)
    → j ≡ k + n
    → get_elem? ts n ≡ some t
    → Owner (i32 (pos j)) ws o
    → get_elem? (decode_tx_inputs_from k ws ts) n ≡ some (with_owner (external_input t) o)
unfolding decode_tx_inputs_from
decode_tx_inputs_from-get k n j ws [] t o q e r = cc
decode_tx_inputs_from-get k zero j ws (x ∷ ts) t o q e r =
    let same : x ≡ t = cc in
    let here : j ≡ k = omega arith in
    let at : override_input (external_input x) (i32 (pos k)) ws ≡ with_owner (external_input x) o =
      override_input-Owner (external_input x) (i32 (pos k)) ws o
        (subst (λ m. Owner (i32 (pos m)) ws o) here r) in
    ap some at ∙ ap (λ y. some (with_owner (external_input y) o)) same
decode_tx_inputs_from-get k (suc n) j ws (x ∷ ts) t o q e r =
    decode_tx_inputs_from-get (k + 1) n j ws ts t o (omega arith) e r

-- The decoded input at a position has the fields of the transaction's input there, and the
-- account of the first wallet input with that index; with no such wallet input it is external.
pub decode_tx_inputs-get :
    (mtx : MsgTx) (ws : List WalletInput) (n : ℕ) (t : TxIn) (o : Option WalletAccount)
    → get_elem? mtx.tx_in n ≡ some t
    → Owner (i32 (pos n)) ws o
    → get_elem? (decode_tx_inputs mtx ws) n ≡ some (with_owner (external_input t) o)
unfolding decode_tx_inputs
decode_tx_inputs-get mtx ws n t o e r =
    decode_tx_inputs_from-get 0 n n ws mtx.tx_in t o (omega arith) e r
