-- ===== src/Spv/Kept.antt =====
-- spv/sync.go, `startupSync`: what the calls that it is made of keep, it keeps, whatever the wallets
-- and the peer answer.
use btclibwallet.Prelude.{
  Elem, here, there, ℕ, ◌+◌, ◌≡◌, inl, inr, refl, Bool, true, false, Option, none, some, List, [],
  ◌∷◌, Result, ok, err, if◌then◌else◌, ltb, arith, Bool-cases, Option-cases, Result-cases,
}
use btclibwallet.Errors.{Error}
use btclibwallet.Spv.{Hash}
use btclibwallet.Spv.Startup.{
  Notification, ntfn_synced, fetch_missing_cfilters_started, fetch_missing_cfilters_finished,
  fetch_missing_cfilters_progress, fetch_headers_started, fetch_headers_finished,
  discover_addresses_started, discover_addresses_finished, rescan_started, rescan_finished,
  rescan_progress, Syncer, notify, synced, unsynced, WalletRun, rescan_through, set_loaded,
  end_rescan, rescan_wallet, catch_up, catch_up_all, missing_through, fetch_missing_cfilters,
  catch_up_locked, startup_sync,
}

abbrev pub is_other : Notification → Bool
is_other (ntfn_synced id b) = false
is_other n = true

set_loaded-loaded : (id : ℕ) (s : Syncer) → (set_loaded id s).loaded_filters id ≡ true
unfolding set_loaded
set_loaded-loaded id s = ground arith

-- `Run` is what is known of the wallets of the startup.
module _ (P : Syncer → Type 0) (Run : WalletRun → Type 0)
    (by_other : (n : Notification) (s : Syncer) → is_other n ≡ true → P s → P (notify n s))
    (by_loaded : (w : WalletRun) (s : Syncer)
      → Run w
      → w.load_filters ≡ none
      → P s
      → P (set_loaded w.id s))
    (by_synced : (id : ℕ) (s : Syncer) → s.loaded_filters id ≡ true → P s → P (synced id s))
    (by_unsynced : (id : ℕ) (s : Syncer) → P s → P (unsynced id s))
    (by_lock : (b : Bool) (s : Syncer) → P s → P (record s { catch_up_lock = b })) where
  -- With the filter of the wallet loaded.
  abbrev IsLoaded : ℕ → Syncer → Type 0
  IsLoaded id s = P s × (s.loaded_filters id ≡ true)

  rescan_through-kept :
      (id : ℕ) (ps : List (Result Error ℕ)) (s : Syncer)
      → IsLoaded id s
      → IsLoaded id (rescan_through id ps s).0
  unfolding rescan_through notify
  rescan_through-kept id [] s h = h
  rescan_through-kept id (err e ∷ ps) s h = h
  rescan_through-kept id (ok n ∷ ps) s h =
      rescan_through-kept id ps (notify (rescan_progress id n) s)
        (by_other (rescan_progress id n) s refl h.0, h.1)

  end_rescan-kept : (id : ℕ) (r : Syncer × Option Error) → IsLoaded id r.0 → P (end_rescan id r).0
  unfolding end_rescan notify
  end_rescan-kept id (s, some e) h = h.0
  end_rescan-kept id (s, none) h =
      by_synced id (notify (rescan_finished id) s) h.1 (by_other (rescan_finished id) s refl h.0)

  rescan_wallet-kept :
      (w : WalletRun) (point : Hash) (s : Syncer) → Run w → P s → P (rescan_wallet w point s).0
  unfolding rescan_wallet notify
  rescan_wallet-kept w point s run p = elim (Option-cases w.load_filters) [
    | inr (e, l) ↦ rw (rescan_wallet, l) p
    | inl l ↦
        let started =
          by_other (rescan_started w.id) (set_loaded w.id s) refl (by_loaded w s run l p) in
        elim (Result-cases (w.block_header point)) [
          | inr (e, b) ↦ rw (rescan_wallet, l, b) started
          | inl (h, b) ↦
              rw (rescan_wallet, l, b)
                (end_rescan-kept w.id _ (
                  rescan_through-kept w.id w.progress
                    (notify (rescan_started w.id) (set_loaded w.id s))
                    (started, set_loaded-loaded w.id s)))
        ]
  ]

  catch_up-kept : (w : WalletRun) (s : Syncer) → Run w → P s → P (catch_up w s).0
  unfolding catch_up
  catch_up-kept w s run p = elim (Result-cases w.rescan_point) [
    | inr (e, r) ↦ rw (catch_up, r) p
    | inl (o, r) ↦ elim (Option-cases o) [
      | inl n ↦ elim (Bool-cases (s.loaded_filters w.id)) [
        | inl y ↦ rw (catch_up, r, n, y) (by_synced w.id s y p)
        | inr y ↦ elim (Option-cases w.load_filters) [
          | inr (e, l) ↦ rw (catch_up, r, n, y, l) p
          | inl l ↦
              rw (catch_up, r, n, y, l)
                (by_synced w.id (set_loaded w.id s) (set_loaded-loaded w.id s)
                  (by_loaded w s run l p))
        ]
      ]
      | inr (point, n) ↦
          let started =
            by_other (discover_addresses_started w.id) (unsynced w.id s) refl
              (by_unsynced w.id s p) in
          elim (Option-cases w.discover) [
            | inr (e, d) ↦ rw (catch_up, r, n, d) started
            | inl d ↦
                rw (catch_up, r, n, d)
                  (rescan_wallet-kept w point _ run
                    (by_other (discover_addresses_finished w.id) _ refl started))
          ]
    ]
  ]

  catch_up_all-kept :
      (ws : List WalletRun) (s : Syncer) (e : Option Error)
      → ((w : WalletRun) → Elem w ws → Run w)
      → P s
      → P (catch_up_all ws s e).0
  unfolding catch_up_all
  catch_up_all-kept [] s e run p = p
  catch_up_all-kept (w ∷ ws) s e run p =
      catch_up_all-kept ws (catch_up w s).0 (catch_up w s).1 (λ v i. run v (there i))
        (catch_up-kept w s (run w here) p)

  kept_if : (b : Bool) (x y : Syncer × Option Error) → P x.0 → P y.0 → P (if b then x else y).0
  kept_if true x y px py = px
  kept_if false x y px py = py

  catch_up_locked-kept :
      (ws : List WalletRun) (s : Syncer)
      → ((w : WalletRun) → Elem w ws → Run w)
      → P s
      → P (catch_up_locked ws s).0
  unfolding catch_up_locked
  catch_up_locked-kept ws s run p = kept_if s.catch_up_lock _ _ p (
      by_lock false _
        (catch_up_all-kept ws (record s { catch_up_lock = true }) none run (by_lock true s p)))

  missing_through-kept :
      (id : ℕ) (ps : List (Result Error (ℕ × ℕ))) (s : Syncer) → P s → P (missing_through id ps s).0
  unfolding missing_through
  missing_through-kept id [] s p = by_other (fetch_missing_cfilters_finished id) s refl p
  missing_through-kept id (err e ∷ ps) s p = p
  missing_through-kept id (ok (a, b) ∷ ps) s p =
      missing_through-kept id ps (notify (fetch_missing_cfilters_progress id a b) s)
        (by_other (fetch_missing_cfilters_progress id a b) s refl p)

  fetch_missing_cfilters-kept :
      (ws : List WalletRun) (s : Syncer) → P s → P (fetch_missing_cfilters ws s).0
  unfolding fetch_missing_cfilters
  fetch_missing_cfilters-kept [] s p = p
  fetch_missing_cfilters-kept (w ∷ ws) s p =
      let start = notify (fetch_missing_cfilters_started w.id) s in
      let k =
        missing_through-kept w.id w.missing_filters start
          (by_other (fetch_missing_cfilters_started w.id) s refl p) in
      elim (Option-cases (missing_through w.id w.missing_filters start).1) [
        | inr (e, r) ↦ rw (fetch_missing_cfilters, r) k
        | inl r ↦ rw (fetch_missing_cfilters, r) (fetch_missing_cfilters-kept ws _ k)
      ]

  pub startup_sync-kept :
      (initial tip : ℕ) (headers : Option Error) (ws : List WalletRun) (s : Syncer)
      → ((w : WalletRun) → Elem w ws → Run w)
      → P s
      → P (startup_sync initial tip headers ws s).0
  unfolding startup_sync
  startup_sync-kept initial tip headers ws s run p = elim (Bool-cases (ltb (initial + 6) tip)) [
    | inl y ↦ rw (startup_sync, y) p
    | inr y ↦
        let m = fetch_missing_cfilters ws s in
        let k = fetch_missing_cfilters-kept ws s p in
        elim (Option-cases m.1) [
          | inr (e, r) ↦ rw (startup_sync, y, r) k
          | inl r ↦
              let started = by_other (fetch_headers_started initial) m.0 refl k in
              elim (Option-cases headers) [
                | inr (e, h) ↦ rw (startup_sync, y, r, h) started
                | inl h ↦
                    rw (startup_sync, y, r, h)
                      (catch_up_locked-kept ws _ run
                        (by_other fetch_headers_finished _ refl started))
              ]
        ]
  ]
