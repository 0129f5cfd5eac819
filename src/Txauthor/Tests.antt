-- ===== src/Txauthor/Tests.antt =====
-- A transaction with two destinations, of which one takes the rest.
use text.Mathlib.Text.{◌==◌ as str_eq}
use btclibwallet.Prelude.{
  ℕ, zero, ◌+◌, ◌≡◌, refl, String, true, false, none, some, List, [], ◌∷◌, ok, err, if◌then◌else◌,
  ◌⊎◌,
}
use btclibwallet.Prelude.Int.{pos}
use btclibwallet.Txauthor.{
  Author, TxAuthor, Destination, TxOut, ChangeSource, Selection, select_default, select_all,
  gather_all, gather, finish, make_tx_output, make_tx_change_source, pk_script, change_source,
  construct_transaction, update_send_destination,
}
use btclibwallet.Txauthor.Construct.{Pays, construct_transaction-Pays}
use Prim.Native.Nat.{◌-◌}
use btclibwallet.Prelude.Int.{negsuc}
use btclibwallet.Prelude.Bytes.{Bytes, bytes_eq}
use btclibwallet.Errors.{message}
use btclibwallet.Txauthor.Broadcast.{Network, to_msg, sign_and_publish, unlock_and_send, broadcast}
use btclibwallet.Txauthor.Published.{reporting, broadcast-reporting}

-- The wallet counts the change addresses that it derived.
abbrev author : Author
author = record {
  Wallet = ℕ;
  Address = String;
  Authored = List TxOut × Selection × ChangeSource;
  decode_address = λ a. if str_eq a "bad" then err (message "bad address") else ok a;
  pay_to_addr_script = λ a. if str_eq a "Ds1" then ok (1 ∷ []) else ok (2 ∷ []);
  max_amount = pos 2100000000000000;
  describe = λ e. "error";
  new_change_address = λ w. (ok "Dc", w + 1);
  new_unsigned_transaction = λ w os s c. ok (os, s, c);
}

abbrev first : Destination
first = record { address = "Ds1"; atom_amount = pos 500; send_max = false }

abbrev second : Destination
second = record { address = "Ds2"; atom_amount = pos 0; send_max = true }

abbrev tx : TxAuthor
tx = record { destinations = first ∷ second ∷ []; change_address = "" }

abbrev built : List TxOut × Selection × ChangeSource
built = (
  record { value = pos 500; version = 0; pk_script = 1 ∷ [] } ∷ [],
  select_all,
  record { script = 2 ∷ []; version = 0 },
)

construct_transaction-Pays_example :
    (os : List TxOut) × (((c : ChangeSource) × Pays author (first ∷ second ∷ []) os (some c)
        × (author.new_unsigned_transaction 0 os select_all c ≡ ok built)
        × (tx ≡ tx)
        × (zero ≡ 0))
      ⊎ ((c : ChangeSource) × Pays author (first ∷ second ∷ []) os none
          × (change_source author tx 0 ≡ (ok c, tx, 0))
          × (author.new_unsigned_transaction 0 os select_default c ≡ ok built)))
unfolding construct_transaction finish gather_all gather make_tx_output make_tx_change_source
    pk_script
construct_transaction-Pays_example = construct_transaction-Pays author tx tx 0 0 built refl

-- Two destinations that take the maximum are refused.
two_maximums :
    construct_transaction author (record tx { destinations = second ∷ second ∷ [] }) 0 ≡ (
      err (message "cannot send max amount to multiple recipients"),
      record tx { destinations = second ∷ second ∷ [] },
      0,
    )
unfolding construct_transaction gather_all gather make_tx_change_source pk_script
two_maximums = refl

abbrev with_change : TxAuthor
with_change = record tx { change_address = "Dc" }

updated :
    update_send_destination tx (pos 1) first
    ≡ some (record tx { destinations = first ∷ first ∷ [] })
unfolding update_send_destination
updated = refl

-- A network whose messages are the unsigned transactions; the passphrase is one byte, 1.
abbrev network : Network author
network = record {
  Backend = ℕ;
  MsgTx = Bytes;
  network_backend = λ w. ok 3;
  change_index = λ a. negsuc 0;
  randomize_change_position = λ a. a;
  serialize_unsigned = λ a. ok (5 ∷ []);
  serialize = λ m. ok m;
  deserialize = λ b. ok b;
  unlock = λ w p. if bytes_eq p (1 ∷ []) then (none, w + 100) else (some (message "wrong"), w);
  time_out = λ w. w - 100;
  sign_transaction = λ w m. ok (9 ∷ m, 0 ∷ []);
  publish_transaction = λ w m b n. (ok (7 ∷ []), w);
  estimated_size = λ a. 250;
  fee_for_serialize_size = λ n. pos 2500;
  spendable_for_account = λ w. ok (pos 9000);
}

broadcast-reporting_example :
    broadcast author (reporting author network (λ w m. 0 ∷ [])) tx 0 (1 ∷ [])
    ≡ (ok (7 ∷ []), tx, 0, 0 ∷ [])
unfolding broadcast unlock_and_send sign_and_publish to_msg construct_transaction finish gather_all
    gather make_tx_output make_tx_change_source pk_script bytes_eq
broadcast-reporting_example = broadcast-reporting author network (λ w m. 0 ∷ []) tx 0 (1 ∷ [])
