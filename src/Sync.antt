-- ===== src/Sync.antt =====
-- sync.go and the end of syncnotification.go: the state of the synchronization, over all wallets.
-- Each function is one step, as it holds the mutex for its writes. The progress reports, the
-- context and the channel are left out, but for whether they are set; so are dcrwallet's lock and
-- the index run that follows. The map of wallets is a list of ids with their flags.
pub mod Consistent
pub mod Stale
pub mod Blocks
mod Tests
use text.Mathlib.Text.{◌==◌ as str_eq}
use btclibwallet.Prelude.{
  ℕ, zero, suc, ◌+◌, String, Bool, true, false, Option, none, some, List, [], ◌∷◌, ◌++◌, Result, ok,
  err, not, ◌&&◌, ◌||◌, ◌==◌, if◌then◌else◌, map,
}
use btclibwallet.Prelude.Int.{ℤ, pos, negsuc, ◌+ℤ◌, ltb_ℤ, eqb_ℤ, i64}
use btclibwallet.Errors.{
  Error, message, err_sync_already_in_progress, err_invalid_peers, err_listener_already_exist,
  err_invalid,
}

pub record ActiveSyncData : Type 0 where
  pub sync_stage : ℤ
  pub begin_fetch_time_stamp : ℤ
  pub start_header_height : ℤ
  pub headers_fetch_time_spent : ℤ
  pub address_discovery_start_time : ℤ
  pub total_discovery_time_spent : ℤ
  pub rescan_start_time : ℤ
  pub total_inactive_seconds : ℤ
  pub total_fetched_headers_count : ℤ

pub record SyncData : Type 0 where
  pub listeners : List String
  pub synced : Bool
  pub syncing : Bool
  -- whether `cancelSync`, and with it `syncCanceled`, is set
  pub cancelable : Bool
  pub restart_sync_requested : Bool
  pub connected_peers : ℤ
  pub active : Option ActiveSyncData

-- The flags of a wallet; whether it is opened, and its best block, are asked of dcrwallet.
pub record Wallet : Type 0 where
  pub id : ℕ
  pub opened : Bool
  pub waiting : Bool
  pub syncing : Bool
  pub synced : Bool
  pub best_block : ℤ
  pub best_block_timestamp : ℤ

pub record MultiWallet : Type 0 where
  pub wallets : List Wallet
  pub sync_data : SyncData

abbrev pub invalid_sync_stage : ℤ
invalid_sync_stage = negsuc 0

abbrev pub fresh : ActiveSyncData
fresh = record {
  sync_stage = invalid_sync_stage;
  begin_fetch_time_stamp = negsuc 0;
  start_header_height = pos 0;
  headers_fetch_time_spent = negsuc 0;
  address_discovery_start_time = negsuc 0;
  total_discovery_time_spent = negsuc 0;
  rescan_start_time = pos 0;
  total_inactive_seconds = pos 0;
  total_fetched_headers_count = pos 0;
}

abbrev pub init_active_sync_data : SyncData → SyncData
init_active_sync_data d = record d { active = some fresh }

unfoldable pub is_listener : String → List String → Bool
is_listener u [] = false
is_listener u (l ∷ ls) = let rest = is_listener u ls in if str_eq l u then true else rest

-- The report that a listener gets, by its stage.
pub data Published : Type 0 where
  nothing headers_fetch address_discovery headers_rescan : Published

abbrev stage_report : ℤ → Published
stage_report s =
    if eqb_ℤ s (pos 0)
    then headers_fetch
    else if eqb_ℤ s (pos 1)
    then address_discovery
    else if eqb_ℤ s (pos 2)
    then headers_rescan
    else nothing

unfoldable pub publish_last_sync_progress : SyncData → String → Result Error Published
publish_last_sync_progress d u =
    if not (is_listener u d.listeners)
    then err (message err_invalid)
    else if d.syncing
    then elim d.active [ none ↦ ok nothing | some a ↦ ok (stage_report a.sync_stage) ]
    else ok nothing

unfoldable pub add_sync_progress_listener : SyncData → String → Result Error Published × SyncData
add_sync_progress_listener d u =
    if is_listener u d.listeners
    then (err (message err_listener_already_exist), d)
    else let d' = record d { listeners = u ∷ d.listeners } in (publish_last_sync_progress d' u, d')

unfoldable pub without : String → List String → List String
without u [] = []
without u (l ∷ ls) = let rest = without u ls in if str_eq l u then rest else l ∷ rest

unfoldable pub remove_sync_progress_listener : SyncData → String → SyncData
remove_sync_progress_listener d u = record d { listeners = without u d.listeners }

-- 60 seconds more where no peer is connected.
unfoldable pub sync_inactive_for_period : SyncData → ℤ → SyncData
sync_inactive_for_period d seconds =
    if d.syncing
    then elim d.active [
      | none ↦ d
      | some a ↦
          let total = i64 (a.total_inactive_seconds +ℤ seconds) in
          let more = if eqb_ℤ d.connected_peers (pos 0) then i64 (total +ℤ pos 60) else total in
          record d { active = some (record a { total_inactive_seconds = more }) }
    ]
    else d

abbrev pub set_syncing : Wallet → Wallet
set_syncing w = record w { waiting = true; syncing = true }

abbrev pub set_waiting : Wallet → Wallet
set_waiting w = record w { waiting = true }

-- The start of a synchronization; the result is whether a restart was asked for, as the listeners
-- are told.
unfoldable pub start_sync : MultiWallet → Result Error Bool × MultiWallet
start_sync mw = (
  ok mw.sync_data.restart_sync_requested,
  record {
    wallets = map set_syncing mw.wallets;
    sync_data = record (init_active_sync_data mw.sync_data) {
      restart_sync_requested = false;
      syncing = true;
      cancelable = true;
    };
  },
)

-- `NormalizeAddress` picks the valid addresses of the configured text.
unfoldable pub spv_sync :
    (String → List String) → String → MultiWallet → Result Error Bool × MultiWallet
spv_sync valid_peer_addresses peer_addresses mw =
    if mw.sync_data.syncing || mw.sync_data.synced
    then (err (message err_sync_already_in_progress), mw)
    else if str_eq peer_addresses ""
    then start_sync mw
    else elim (valid_peer_addresses peer_addresses) [
      | [] ↦ (err (message err_invalid_peers), mw)
      | p ∷ ps ↦ start_sync mw
    ]

-- After `Run` ended. The wallets' own flags of syncing and synced stay.
unfoldable pub reset_sync_data : MultiWallet → MultiWallet
reset_sync_data mw = record {
  wallets = map set_waiting mw.wallets;
  sync_data = record mw.sync_data {
    syncing = false;
    synced = false;
    cancelable = false;
    active = none;
  };
}

abbrev pub opened_wallets_count : List Wallet → ℕ
opened_wallets_count [] = 0
opened_wallets_count (w ∷ ws) = (if w.opened then 1 else 0) + opened_wallets_count ws

abbrev pub synced_wallets_count : List Wallet → ℕ
synced_wallets_count [] = 0
synced_wallets_count (w ∷ ws) = (if w.opened && w.synced then 1 else 0) + synced_wallets_count ws

-- The wallet with an id; one that is not there is a nil dereference, none.
unfoldable pub mark_synced : ℕ → Bool → List Wallet → Option (List Wallet)
mark_synced id b [] = none
mark_synced id b (w ∷ ws) =
    let rest = mark_synced id b ws in
    if w.id == id
    then some (record w { synced = b; syncing = false } ∷ ws)
    else elim rest [ none ↦ none | some ws' ↦ some (w ∷ ws') ]

-- The notification that a wallet is synced, or no longer.
unfoldable pub wallet_synced : MultiWallet → ℕ → Bool → Option MultiWallet
wallet_synced mw id b =
    if mw.sync_data.synced && b then some mw else elim (mark_synced id b mw.wallets) [
      | none ↦ none
      | some ws ↦
          if opened_wallets_count ws == synced_wallets_count ws
          then some (record {
            wallets = ws;
            sync_data = record mw.sync_data { syncing = false; synced = true };
          })
          else some (record mw { wallets = ws })
    ]

abbrev pub is_connected_to_decred_network : SyncData → Bool
is_connected_to_decred_network d = d.syncing || d.synced

-- A syncing state without active data is a nil dereference, none.
unfoldable pub current_sync_stage : SyncData → Option ℤ
current_sync_stage d =
    if d.syncing
    then elim d.active [ none ↦ none | some a ↦ some a.sync_stage ]
    else some invalid_sync_stage

-- The loops of `GetBestBlock` and `GetLowestBlock`, with -1 for no block yet: the height and
-- its time.
unfoldable pub best_from : ℤ → Option (ℤ × ℤ) → List Wallet → Option (ℤ × ℤ)
best_from best info [] = info
best_from best info (w ∷ ws) =
    if w.opened && (ltb_ℤ best w.best_block || eqb_ℤ best (negsuc 0))
    then best_from w.best_block (some (w.best_block, w.best_block_timestamp)) ws
    else best_from best info ws

abbrev pub get_best_block : MultiWallet → Option (ℤ × ℤ)
get_best_block mw = best_from (negsuc 0) none mw.wallets

unfoldable pub lowest_from : ℤ → Option (ℤ × ℤ) → List Wallet → Option (ℤ × ℤ)
lowest_from lowest info [] = info
lowest_from lowest info (w ∷ ws) =
    if w.opened && (ltb_ℤ w.best_block lowest || eqb_ℤ lowest (negsuc 0))
    then lowest_from w.best_block (some (w.best_block, w.best_block_timestamp)) ws
    else lowest_from lowest info ws

abbrev pub get_lowest_block : MultiWallet → Option (ℤ × ℤ)
get_lowest_block mw = lowest_from (negsuc 0) none mw.wallets
