-- ===== src/Txindex/Tests.antt =====
-- A storm that is a list, newest first, and runs of the index on it.
use text.Mathlib.Text.{◌==◌ as str_eq}
use text.Mathlib.TextEquality.{eq_iff}
use btclibwallet.Prelude.{
  String, ◌≡◌, refl, Bool, true, false, not, ◌&&◌, Option, none, some, List, [], ◌∷◌, Result, ok,
  err, arith, if◌then◌else◌,
}
use btclibwallet.Prelude.Int.{ℤ, pos, eqb_ℤ}
use btclibwallet.Errors.{Error}
use btclibwallet.Types.{Transaction}
use btclibwallet.Txindex.Store.{TxStore, IsTxStore, StormError, not_found}
use btclibwallet.Txindex.Filter.{
  Matchers, IsMatchers, selects, prepare_tx_query, tx_matches_filter, selects-prepare_tx_query,
}
use btclibwallet.Txindex.Save.{
  save_or_update, save_last_index_point, read_indexing_start_block, one-save_or_update,
}
use btclibwallet.Txindex.Index.{
  Block, finish_block, index_txs, range_fn, index_blocks, index_transactions,
}
use btclibwallet.Txindex.Complete.{BlocksDone, index_transactions_complete}

record Table : Type 0 where
  rows : List Transaction
  end_block : Option ℤ

find : List Transaction → String → Result StormError Transaction
find [] h = err not_found
find (t ∷ ts) h = if str_eq t.hash h then ok t else find ts h

without : String → List Transaction → List Transaction
without h [] = []
without h (t ∷ ts) = let rest = without h ts in if str_eq h t.hash then rest else t ∷ rest

abbrev read_end : Option ℤ → Result StormError ℤ
read_end none = err not_found
read_end (some n) = ok n

abbrev storm : TxStore
storm = record {
  Db = Table;
  one = λ db h. find db.rows h;
  delete_struct = λ db t. record db { rows = without t.hash db.rows };
  save = λ db t. ok (record db { rows = t ∷ db.rows });
  get_end_block = λ db. read_end db.end_block;
  set_end_block = λ db n. ok (record db { end_block = some n });
  drop_all = λ db. ok (record db { rows = [] });
}

find-hash : (ts : List Transaction) (h : String) (t : Transaction) → find ts h ≡ ok t → t.hash ≡ h
unfolding find
find-hash [] h t e = ground arith
find-hash (x ∷ ts) h t e = ground (arith, find-hash ts h t, eq_iff x.hash h)

find-without :
    (ts : List Transaction) (g h : String) → str_eq g h ≡ false → find (without g ts) h ≡ find ts h
unfolding find without
find-without [] g h ne = refl
find-without (x ∷ ts) g h ne =
    ground (arith, find-without ts g h, eq_iff g x.hash, eq_iff x.hash h, eq_iff g h)

storm-IsTxStore : IsTxStore storm
unfolding find
storm-IsTxStore = record {
  one_hash = λ db h t e. find-hash db.rows h t e;
  one-save = λ db db' t h e. ground (arith, e);
  one-delete_struct = λ db t h ne. find-without db.rows t.hash h ne;
  one-set_end_block = λ db db' n h e. ground (arith, e);
  get_end_block-set_end_block = λ db db' n e. ground (arith, e);
  get_end_block-save = λ db db' t e. ground (arith, e);
  get_end_block-delete_struct = λ db t. refl;
}

abbrev no_tx : Transaction
no_tx = record {
  wallet_id = 0;
  hash = "";
  type = "";
  hex = "";
  timestamp = pos 0;
  block_height = pos 0;
  version = pos 0;
  lock_time = pos 0;
  expiry = pos 0;
  fee = pos 0;
  fee_rate = pos 0;
  size = 0;
  direction = pos 0;
  amount = pos 0;
  inputs = [];
  outputs = [];
  vote_version = pos 0;
  last_block_valid = false;
  vote_bits = "";
  vote_reward = pos 0;
  ticket_spent_hash = "";
  days_to_vote_or_revoke = pos 0;
}

-- A transaction is known by its hash; this decoder fails on none.
decode : String → Option String → Result Error Transaction
decode s block = ok (record no_tx { hash = s; timestamp = pos 1600000000 })

abbrev fresh : Table
fresh = record { rows = []; end_block = some (pos 10) }

abbrev two_blocks : ℤ → ℤ → List (Block String × Bool)
two_blocks begin end =
    (
      record {
        transactions = "a" ∷ "b" ∷ [];
        header = some (record { block_hash = "h1"; height = 11 });
      },
      false,
    )
    ∷ (
      record { transactions = "a" ∷ []; header = some (record { block_hash = "h2"; height = 12 }) },
      false,
    )
    ∷ (record { transactions = "c" ∷ []; header = none }, false)
    ∷ []

one-save_or_update_example :
    find
      (save_or_update storm fresh no_tx (record no_tx { hash = "a"; timestamp = pos 5 })).2.rows
      "b"
    ≡ err not_found
unfolding save_or_update find
one-save_or_update_example =
    one-save_or_update storm storm-IsTxStore fresh no_tx
      (record no_tx { hash = "a"; timestamp = pos 5 }) "b" refl refl

index_transactions_complete_example :
    (start : ℤ) × (read_indexing_start_block storm fresh ≡ ok start)
    × BlocksDone storm String decode no_tx
        (two_blocks start (pos 12))
        fresh
        (index_transactions storm String decode no_tx two_blocks (pos 12) fresh).0
unfolding index_transactions index_blocks range_fn index_txs finish_block save_or_update
    save_last_index_point read_indexing_start_block find without decode
index_transactions_complete_example =
    index_transactions_complete storm String decode no_tx storm-IsTxStore refl two_blocks (pos 12)
      fresh refl

data Matcher : Type 0 where
  eq_type : String → Matcher
  eq_direction : ℤ → Matcher
  q_not : Matcher → Matcher → Matcher
  q_true : Matcher

matches : Matcher → String → ℤ → Bool
matches (eq_type v) t d = str_eq t v
matches (eq_direction v) t d = eqb_ℤ d v
matches (q_not m n) t d = not (matches m t d) && not (matches n t d)
matches q_true t d = true

abbrev q : Matchers
q = record {
  Matcher = Matcher;
  eq_type = eq_type;
  eq_direction = eq_direction;
  q_not = q_not;
  q_true = q_true;
  matches = matches;
}

q-IsMatchers : IsMatchers q
unfolding matches
q-IsMatchers = record {
  matches-eq_type = λ v t d. refl;
  matches-eq_direction = λ v t d. refl;
  matches-q_not = λ m n t d. refl;
  matches-q_true = λ t d. refl;
}

selects-prepare_tx_query_example :
    selects q (prepare_tx_query q (pos 4)) "Vote" (pos 0) ≡ tx_matches_filter "Vote" (pos 0) (pos 4)
selects-prepare_tx_query_example =
    selects-prepare_tx_query q q-IsMatchers 4 (pos 0) "Vote" (omega arith)
