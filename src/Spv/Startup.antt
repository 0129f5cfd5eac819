-- ===== src/Spv/Startup.antt =====
-- `startupSync` of spv/sync.go and what it calls: a peer brings every wallet up to date. What the
-- wallets and the peer answer are parameters, by wallet; the notifications are recorded in order.
use btclibwallet.Prelude.{
  ℕ, ◌+◌, Bool, true, false, Option, none, some, List, [], ◌∷◌, ◌++◌, Result, ok, err,
  if◌then◌else◌, ◌==◌, ltb,
}
use btclibwallet.Errors.{Error, message}
use btclibwallet.Spv.{Hash}

pub data Notification : Type 0 where
  ntfn_synced : ℕ → Bool → Notification
  fetch_missing_cfilters_started fetch_missing_cfilters_finished : ℕ → Notification
  fetch_missing_cfilters_progress : ℕ → ℕ → ℕ → Notification
  fetch_headers_started : ℕ → Notification
  fetch_headers_finished : Notification
  discover_addresses_started discover_addresses_finished : ℕ → Notification
  rescan_started rescan_finished : ℕ → Notification
  rescan_progress : ℕ → ℕ → Notification

-- The atomics by wallet, the loaded filters, the lock for catching up, and what was notified.
pub record Syncer : Type 0 where
  pub wallets_synced : ℕ → Bool
  pub loaded_filters : ℕ → Bool
  pub catch_up_lock : Bool
  pub sent : List Notification

abbrev pub set_flag : (ℕ → Bool) → ℕ → Bool → ℕ → Bool
set_flag m id b i = if i == id then b else m i

unfoldable pub notify : Notification → Syncer → Syncer
notify n s = record s { sent = s.sent ++ n ∷ [] }

-- A compare-and-swap from 0 to 1, with a callback where it swaps.
unfoldable pub synced : ℕ → Syncer → Syncer
synced id s =
    if s.wallets_synced id
    then s
    else notify (ntfn_synced id true)
        (record s { wallets_synced = set_flag s.wallets_synced id true })

unfoldable pub unsynced : ℕ → Syncer → Syncer
unsynced id s =
    if s.wallets_synced id
    then notify (ntfn_synced id false)
        (record s { wallets_synced = set_flag s.wallets_synced id false })
    else s

-- What a wallet answers: the rescan point, `LoadActiveDataFilters`, `DiscoverActiveAddresses`, the
-- header of the rescan point, the progress of the rescan, and that of the missing filters.
pub record WalletRun : Type 0 where
  pub id : ℕ
  pub rescan_point : Result Error (Option Hash)
  pub load_filters : Option Error
  pub discover : Option Error
  pub block_header : Hash → Result Error ℕ
  pub progress : List (Result Error ℕ)
  pub missing_filters : List (Result Error (ℕ × ℕ))

unfoldable pub rescan_through : ℕ → List (Result Error ℕ) → Syncer → Syncer × Option Error
rescan_through id [] s = (s, none)
rescan_through id (err e ∷ ps) s = (s, some e)
rescan_through id (ok n ∷ ps) s = rescan_through id ps (notify (rescan_progress id n) s)

unfoldable pub set_loaded : ℕ → Syncer → Syncer
set_loaded id s = record s { loaded_filters = set_flag s.loaded_filters id true }

unfoldable pub end_rescan : ℕ → Syncer × Option Error → Syncer × Option Error
end_rescan id (s, some e) = (s, some e)
end_rescan id (s, none) = (synced id (notify (rescan_finished id) s), none)

unfoldable pub rescan_wallet : WalletRun → Hash → Syncer → Syncer × Option Error
rescan_wallet w point s = elim w.load_filters [
  | some e ↦ (s, some e)
  | none ↦
      let started = notify (rescan_started w.id) (set_loaded w.id s) in
      elim (w.block_header point) [
        | err e ↦ (started, some e)
        | ok h ↦ end_rescan w.id (rescan_through w.id w.progress started)
      ]
]

-- The function that the loop over the wallets calls for each.
unfoldable pub catch_up : WalletRun → Syncer → Syncer × Option Error
catch_up w s = elim w.rescan_point [
  | err e ↦ (s, some e)
  | ok none ↦ if s.loaded_filters w.id then (synced w.id s, none) else elim w.load_filters [
    | some e ↦ (s, some e)
    | none ↦ (synced w.id (set_loaded w.id s), none)
  ]
  | ok (some point) ↦
      let started = notify (discover_addresses_started w.id) (unsynced w.id s) in
      elim w.discover [
        | some e ↦ (started, some e)
        | none ↦ rescan_wallet w point (notify (discover_addresses_finished w.id) started)
      ]
]

-- `err` is what the last wallet left.
unfoldable pub catch_up_all : List WalletRun → Syncer → Option Error → Syncer × Option Error
catch_up_all [] s e = (s, e)
catch_up_all (w ∷ ws) s e = catch_up_all ws (catch_up w s).0 (catch_up w s).1

unfoldable pub missing_through : ℕ → List (Result Error (ℕ × ℕ)) → Syncer → Syncer × Option Error
missing_through id [] s = (notify (fetch_missing_cfilters_finished id) s, none)
missing_through id (err e ∷ ps) s = (s, some e)
missing_through id (ok (a, b) ∷ ps) s =
    missing_through id ps (notify (fetch_missing_cfilters_progress id a b) s)

unfoldable pub fetch_missing_cfilters : List WalletRun → Syncer → Syncer × Option Error
fetch_missing_cfilters [] s = (s, none)
fetch_missing_cfilters (w ∷ ws) s =
    let r =
      missing_through w.id w.missing_filters (notify (fetch_missing_cfilters_started w.id) s) in
    elim r.1 [ some e ↦ (r.0, some e) | none ↦ fetch_missing_cfilters ws r.0 ]

-- Another peer's startup may hold the lock. Unmined transactions are then published, and errors of
-- that are logged.
unfoldable pub catch_up_locked : List WalletRun → Syncer → Syncer × Option Error
catch_up_locked ws s =
    if s.catch_up_lock
    then (s, none)
    else let r = catch_up_all ws (record s { catch_up_lock = true }) none in
      (record r.0 { catch_up_lock = false }, r.1)

-- The peer's initial height, the highest tip of the wallets, the fetch of the headers.
unfoldable pub startup_sync : ℕ → ℕ → Option Error → List WalletRun → Syncer → Syncer × Option Error
startup_sync initial_height tip_height get_headers ws s =
    if ltb (initial_height + 6) tip_height
    then (s, some (message "peer is not synced"))
    else let m = fetch_missing_cfilters ws s in
      elim m.1 [
        | some e ↦ (m.0, some e)
        | none ↦
            let started = notify (fetch_headers_started initial_height) m.0 in
            elim get_headers [
              | some e ↦ (started, some e)
              | none ↦ catch_up_locked ws (notify fetch_headers_finished started)
            ]
      ]
