-- ===== src/Spv/SyncTests.antt =====
-- Runs of the syncer at concrete inputs: requests, announced transactions, a startup, headers.
use btclibwallet.Prelude.{
  here, inl, inr, Bool, ℕ, ◌≡◌, ◌≤◌, ◌<◌, refl, Option, none, some, List, [], ◌∷◌, ok, true, false,
  ◌==◌, if◌then◌else◌, Elem-cases, Elem-nil, arith, ◌++◌,
}
use btclibwallet.Errors.{message}
use btclibwallet.Spv.{OutPoint, tree_regular, out_point_eq}
use btclibwallet.Spv.Rescan.{
  Check, spent, check_transaction, relevant_tx, any_address, any_unspent, any_output,
}
use btclibwallet.Spv.Tests.{list_watch, list_watch-IsWatch, paying, spending}
use btclibwallet.Spv.Found.{check_transaction-matches}
use btclibwallet.Spv.GetData.{Lookup, get_transactions_by_hashes, panic, reply, failure}
use btclibwallet.Spv.Requests.{found_by, without_all, get_transactions_by_hashes-answer}
use btclibwallet.Spv.Replies.{without}
use btclibwallet.Spv.Panics.{get_transactions_by_hashes-panics}
use btclibwallet.Spv.TxInvs.{accept_mempool_tx, mempool_txs, save_relevant, save_relevant-lost}
use btclibwallet.Spv.Startup.{Syncer, WalletRun, startup_sync}
use btclibwallet.Spv.Notified.{
  IsFollowed, IsLoadedIfSynced, follow, startup_sync-IsFollowed, startup_sync-IsLoaded, IsLoader,
}
use btclibwallet.Spv.Headers.{
  Round, Locators, get_headers, HasReached, get_headers-HasReached, headers_loop, end_headers,
  is_short, connect_wallets, last_height, set_locators,
}
use btclibwallet.Spv.Announced.{WalletChain, Chains, add_new, announce, handle_block_announcements}
use btclibwallet.Spv.Switches.{IsAnnounced, announce-IsAnnounced}
use btclibwallet.Spv.Counted.{IsCounted, handle_block_announcements-IsCounted}
use btclibwallet.Spv.Peers.{
  Candidate, peer_candidate, candidate_loop, is_skipped, peer_candidate-fit,
}

abbrev fresh : Check (List OutPoint × List ℕ) ℕ
fresh = record { filter = ([], 7 ∷ []); filter_data = 14 ∷ []; fadded = []; matches = [] }

check_transaction-matches_example :
    (check_transaction list_watch 1 tree_regular paying fresh).matches ≡ paying ∷ []
unfolding any_unspent any_output any_address spent
check_transaction-matches_example =
    check_transaction-matches list_watch list_watch-IsWatch 1 tree_regular paying fresh

-- A wallet that has the paying transaction and no other.
abbrev has_paying : Lookup
has_paying hs = elim hs [ [] ↦ ([], none) | h ∷ hs' ↦ (if h == 11 then paying ∷ [] else [], none) ]

get_transactions_by_hashes-answer_example :
    get_transactions_by_hashes (has_paying ∷ []) (11 ∷ 12 ∷ []) ≡ reply (paying ∷ []) (12 ∷ [])
unfolding found_by failure without_all without
get_transactions_by_hashes-answer_example =
    get_transactions_by_hashes-answer (has_paying ∷ []) (11 ∷ 12 ∷ []) (
      (λ e. elim (Elem-cases e) [
        | inl same ↦ absurd (ground (arith, same))
        | inr none' ↦ Elem-nil none'
      ]),
      ((λ e. Elem-nil e), tt),
    )

get_transactions_by_hashes-panics_example :
    get_transactions_by_hashes (has_paying ∷ []) (11 ∷ 12 ∷ 11 ∷ []) ≡ panic
get_transactions_by_hashes-panics_example =
    get_transactions_by_hashes-panics has_paying [] paying [] (11 ∷ 12 ∷ []) here refl

-- The wallet 1 knows the outpoint that is spent, the wallet 2 the address that is paid.
abbrev spender : List OutPoint × List ℕ
spender = (record { hash = 11; index = 0; tree = 0 } ∷ [], [])

save_relevant-lost_example :
    save_relevant list_watch ((1, spender) ∷ (2, ([], 7 ∷ [])) ∷ []) (paying ∷ spending ∷ [])
    ≡ accept_mempool_tx 1 spending ∷ mempool_txs 1 (spending ∷ []) ∷ mempool_txs 2 [] ∷ []
unfolding relevant_tx any_unspent any_output any_address out_point_eq
save_relevant-lost_example =
    save_relevant-lost list_watch 1 2 spender ([], 7 ∷ []) paying spending refl refl refl

abbrev idle : Syncer
idle = record {
  wallets_synced = λ i. false;
  loaded_filters = λ i. false;
  catch_up_lock = false;
  sent = [];
}

abbrev first_run : WalletRun
first_run = record {
  id = 1;
  rescan_point = ok (some 5);
  load_filters = none;
  discover = none;
  block_header = λ h. ok 100;
  progress = ok 150 ∷ ok 200 ∷ [];
  missing_filters = ok (0, 100) ∷ [];
}

startup_sync-IsFollowed_example :
    IsFollowed (λ i. false) (startup_sync 200 200 none (first_run ∷ []) idle).0
unfolding follow
startup_sync-IsFollowed_example =
    startup_sync-IsFollowed (λ i. false) 200 200 none (first_run ∷ []) idle refl

startup_sync-IsLoaded_example :
    IsLoadedIfSynced (startup_sync 200 200 none (first_run ∷ []) idle).0
    × ((id : ℕ)
        → (startup_sync 200 200 none (first_run ∷ []) idle).0.wallets_synced id ≡ true
        → IsLoader idle (first_run ∷ []) id)
startup_sync-IsLoaded_example =
    startup_sync-IsLoaded 200 200 none (first_run ∷ []) idle (λ i h. absurd (cc h))

abbrev no_locators : Locators
no_locators = record { current = []; generation = 0; progress = [] }

abbrev two_headers : Round
two_headers = record {
  headers = ok (199 ∷ 200 ∷ []);
  cfilters = none;
  own_height = some 198;
  wallets = record { evaluate_best_chain = ok 2; validate = none; chain_switch = none } ∷ [];
  block_locators = ok (200 ∷ []);
}

abbrev no_headers : Round
no_headers = record {
  headers = ok [];
  cfilters = none;
  own_height = some 200;
  wallets = [];
  block_locators = ok [];
}

get_headers-HasReached_example : HasReached 200 0 (two_headers ∷ no_headers ∷ [])
unfolding get_headers headers_loop end_headers is_short connect_wallets last_height set_locators
get_headers-HasReached_example =
    get_headers-HasReached 200 none (message "lost") (ok (198 ∷ [])) (two_headers ∷ no_headers ∷ [])
      no_locators refl

-- Nodes are numbers, and the forest is their list.
abbrev one_wallet : WalletChain (List ℕ) ℕ
one_wallet = record {
  block_in_main_chain = λ n. ok false;
  block_in_main_chain_after = λ n. ok (n == 9);
  evaluate_best_chain = λ f. ok f;
  validate_header_chain = λ ns. none;
  rescan_point = ok none;
  scan_chain = λ ns. ok ((1, paying ∷ []) ∷ []);
  chain_switch = λ f ns m. ok ([], []);
}

abbrev no_chains : Chains (List ℕ) ℕ
no_chains = record { forest = []; current_locators = 1 ∷ []; locator_generation = 0; sent = [] }

abbrev append_node : List ℕ → ℕ → List ℕ × Bool
append_node f n = (f ++ n ∷ [], true)

announce-IsAnnounced_example :
    IsAnnounced
      (List ℕ)
      ℕ
      append_node
      one_wallet
      (add_new (List ℕ) ℕ append_node one_wallet (8 ∷ 9 ∷ []) [])
      (8 ∷ 9 ∷ [])
      no_chains
      (announce (List ℕ) ℕ append_node one_wallet (8 ∷ 9 ∷ []) no_chains)
announce-IsAnnounced_example =
    announce-IsAnnounced (List ℕ) ℕ append_node one_wallet (8 ∷ 9 ∷ []) no_chains

handle_block_announcements-IsCounted_example :
    IsCounted
      (List ℕ)
      ℕ
      append_node
      no_chains
      (handle_block_announcements
        (List ℕ)
        ℕ
        append_node
        (one_wallet ∷ one_wallet ∷ [])
        none
        (8 ∷ 9 ∷ [])
        no_chains).0
handle_block_announcements-IsCounted_example =
    handle_block_announcements-IsCounted (List ℕ) ℕ append_node (one_wallet ∷ one_wallet ∷ []) none
      (8 ∷ 9 ∷ []) no_chains

-- The first address is connected, the second is not.
abbrev addresses : ℕ → Option Candidate
addresses t =
    some (record { address = t; is_connected = t == 0; last_attempt = 60; has_services = true })

peer_candidate-fit_example :
    (t : ℕ) × (c : Candidate) × (addresses t ≡ some c)
    × (c.address ≡ 1)
    × (t < 100)
    × (c.is_connected ≡ false)
    × ((c.last_attempt < 10) → 30 ≤ t)
    × (c.has_services ≡ false → 50 ≤ t)
unfolding peer_candidate candidate_loop is_skipped
peer_candidate-fit_example = peer_candidate-fit addresses 1 refl
