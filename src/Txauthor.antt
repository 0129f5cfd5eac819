-- ===== src/Txauthor.antt =====
-- txauthor.go: an unsigned transaction, its destinations and how it is put together, with
-- addresshelper/helper.go and the constructors of txhelper that it calls. The Decred libraries and
-- the source wallet are the parameter `Author`.
pub mod Destinations
pub mod Construct
pub mod Change
pub mod Broadcast
pub mod Published
mod Tests
use btclibwallet.Prelude.{
  ℕ, zero, suc, String, Bool, true, false, Option, none, some, List, [], ◌∷◌, ◌++◌, Result, ok, err,
  not, ◌&&◌, ◌||◌, ltb, if◌then◌else◌, length, take, drop, get_elem?,
}
use btclibwallet.Prelude.Int.{ℤ, pos, negsuc, ◌+ℤ◌, ltb_ℤ, i64}
use text.Mathlib.Text.{◌==◌ as str_eq}
use btclibwallet.Prelude.Bytes.{Bytes}
use btclibwallet.Errors.{Error, Kind, with_kind, message, invalid, translate_error}

pub record Destination : Type 0 where
  pub address : String
  pub atom_amount : ℤ
  pub send_max : Bool

-- `sourceWallet` and `sourceAccountNumber` stay as they are, and are left to the parameter.
pub record TxAuthor : Type 0 where
  pub destinations : List Destination
  pub change_address : String

pub record TxOut : Type 0 where
  pub value : ℤ
  pub version : ℕ
  pub pk_script : Bytes

pub record ChangeSource : Type 0 where
  pub script : Bytes
  pub version : ℕ

-- wallet.OutputSelectionAlgorithm
pub data Selection : Type 0 where
  select_default select_all : Selection

pub record Author : Type 1 where
  -- the state of the source wallet
  pub Wallet : Type 0
  pub Address : Type 0
  pub Authored : Type 0
  -- dcrutil.DecodeAddress, txscript.PayToAddrScript and dcrutil.MaxAmount
  pub decode_address : String → Result Error Address
  pub pay_to_addr_script : Address → Result Error Bytes
  pub max_amount : ℤ
  -- the text of an error; what the code writes before it is left out
  pub describe : Error → String
  -- NewChangeAddress and NewUnsignedTransaction of the account
  pub new_change_address : Wallet → Result Error String × Wallet
  pub new_unsigned_transaction :
      Wallet → List TxOut → Selection → ChangeSource → Result Error Authored

abbrev pub script_version : ℕ
script_version = 0

abbrev pub new_unsigned_tx : TxAuthor
new_unsigned_tx = record { destinations = []; change_address = "" }

-- `destinations[index] = ...` and `append(d[:index], d[index+1:]...)`; none is a panic.
unfoldable pub update_send_destination : TxAuthor → ℤ → Destination → Option TxAuthor
update_send_destination tx (negsuc n) d = none
update_send_destination tx (pos n) d =
    if ltb n (length tx.destinations)
    then some
        (record tx { destinations = take n tx.destinations ++ d ∷ drop (suc n) tx.destinations })
    else none

unfoldable pub remove_send_destination : TxAuthor → ℤ → Option TxAuthor
remove_send_destination tx (negsuc n) = none
remove_send_destination tx (pos n) =
    if ltb n (length tx.destinations)
    then some (record tx { destinations = take n tx.destinations ++ drop (suc n) tx.destinations })
    else some tx

abbrev pub send_destination : TxAuthor → ℕ → Option Destination
send_destination tx i = get_elem? tx.destinations i

-- The int64 sum of `TotalSendAmount`.
unfoldable pub sum_amounts : ℤ → List Destination → ℤ
sum_amounts total [] = total
sum_amounts total (d ∷ ds) = sum_amounts (i64 (total +ℤ d.atom_amount)) ds

unfoldable pub total_send_amount : TxAuthor → ℤ
total_send_amount tx = sum_amounts (pos 0) tx.destinations

-- What the loop of `constructTransaction` has gathered; the change source is nil at first.
abbrev pub Gathered : Type 0
Gathered = List TxOut × Selection × Option ChangeSource

abbrev is_set : Option ChangeSource → Bool
is_set none = false
is_set (some c) = true

module _ (A : Author) where
  open A use {
    Wallet, Address, Authored, decode_address, pay_to_addr_script, max_amount, describe,
    new_change_address, new_unsigned_transaction,
  }

  unfoldable pub add_send_destination : TxAuthor → Destination → Result Error TxAuthor
  add_send_destination tx d = elim (decode_address d.address) [
    | err e ↦ err (translate_error e)
    | ok a ↦ ok (record tx { destinations = tx.destinations ++ d ∷ [] })
  ]

  -- addresshelper.PkScript
  unfoldable pub pk_script : String → Result Error Bytes
  pk_script address = elim (decode_address address) [
    | err e ↦ err (message (describe e))
    | ok a ↦ pay_to_addr_script a
  ]

  unfoldable pub make_tx_change_source : String → Result Error ChangeSource
  make_tx_change_source address = elim (pk_script address) [
    | err e ↦ err e
    | ok script ↦ ok (record { script = script; version = script_version })
  ]

  unfoldable pub make_tx_output : String → ℤ → Result Error TxOut
  make_tx_output address amount = elim (pk_script address) [
    | err e ↦ err e
    | ok script ↦ ok (record { value = amount; version = script_version; pk_script = script })
  ]

  -- One destination.
  unfoldable pub gather : Destination → Gathered → Result Error Gathered
  gather d (outputs, selection, change) =
      if not d.send_max && (not (ltb_ℤ (pos 0) d.atom_amount) || ltb_ℤ max_amount d.atom_amount)
      then err (with_kind invalid "invalid amount")
      else if d.send_max && is_set change
      then err (message "cannot send max amount to multiple recipients")
      else if d.send_max
      then elim (make_tx_change_source d.address) [
        | err e ↦ err (message (describe e))
        | ok c ↦ ok (outputs, select_all, some c)
      ]
      else elim (make_tx_output d.address d.atom_amount) [
        | err e ↦ err (message (describe e))
        | ok o ↦ ok (outputs ++ o ∷ [], selection, change)
      ]

  unfoldable pub gather_all : List Destination → Gathered → Result Error Gathered
  gather_all [] g = ok g
  gather_all (d ∷ ds) g = elim (gather d g) [ err e ↦ err e | ok g' ↦ gather_all ds g' ]

  -- `changeSource`, which derives an address the first time and keeps it.
  unfoldable pub change_source_of : TxAuthor → Result Error ChangeSource
  change_source_of tx = elim (make_tx_change_source tx.change_address) [
    | err e ↦ err (message (describe e))
    | ok c ↦ ok c
  ]

  unfoldable pub change_source : TxAuthor → Wallet → Result Error ChangeSource × TxAuthor × Wallet
  change_source tx w =
      if str_eq tx.change_address ""
      then (let (r, w') = new_change_address w in
          elim r [
            | err e ↦ (err (message (describe e)), tx, w')
            | ok address ↦
                let tx' = record tx { change_address = address } in (change_source_of tx', tx', w')
          ])
      else (change_source_of tx, tx, w)

  -- The end of `constructTransaction`: a nil change source is replaced by the wallet's own.
  unfoldable pub finish : Gathered → TxAuthor → Wallet → Result Error Authored × TxAuthor × Wallet
  finish (outputs, selection, some c) tx w = (new_unsigned_transaction w outputs selection c, tx, w)
  finish (outputs, selection, none) tx w =
      let (r, tx', w') = change_source tx w in
      elim r [
        | err e ↦ (err e, tx', w')
        | ok c ↦ (new_unsigned_transaction w' outputs selection c, tx', w')
      ]

  unfoldable pub construct_transaction :
      TxAuthor → Wallet → Result Error Authored × TxAuthor × Wallet
  construct_transaction tx w = elim (gather_all tx.destinations ([], select_default, none)) [
    | err e ↦ (err e, tx, w)
    | ok g ↦ finish g tx w
  ]
