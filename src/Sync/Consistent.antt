-- ===== src/Sync/Consistent.antt =====
-- The flags of the synchronization agree, and when a synchronization counts as done.
use text.Mathlib.Text.{◌==◌ as str_eq}
use btclibwallet.Prelude.{
  ℕ, ◌≡◌, refl, sym, subst, String, Bool, true, false, some, List, Result, err, arith, ◌⊎◌, inl,
  inr, ◌||◌, ◌==◌, Option-cases, List-cases, Bool-cases, is_some, ◌&&◌,
}
use btclibwallet.Prelude.Int.{ℤ}
use btclibwallet.Errors.{Error, message, err_sync_already_in_progress, err_invalid_peers}
use btclibwallet.Sync.{
  MultiWallet, SyncData, spv_sync, start_sync, is_listener, reset_sync_data, wallet_synced,
  mark_synced, sync_inactive_for_period, opened_wallets_count, synced_wallets_count,
  current_sync_stage, invalid_sync_stage, add_sync_progress_listener, remove_sync_progress_listener,
}

-- Not both syncing and synced; in either state there is active data and the run can be cancelled.
abbrev pub IsConsistent : SyncData → Type 0
IsConsistent d =
    (d.syncing ≡ true → d.synced ≡ false)
    × (d.cancelable ≡ is_some d.active)
    × (d.syncing || d.synced ≡ true → d.cancelable ≡ true)

-- The steps: a start, what the running syncer reports, its end, and calls of the application.
pub data Step : MultiWallet → MultiWallet → Type 0 where
  by_spv_sync :
      (valid : String → List String) (peers : String) (mw : MultiWallet)
      → Step mw (spv_sync valid peers mw).1
  by_synced :
      (mw mw' : MultiWallet) (id : ℕ) (b : Bool)
      → mw.sync_data.cancelable ≡ true
      → wallet_synced mw id b ≡ some mw'
      → Step mw mw'
  by_end : (mw : MultiWallet) → Step mw (reset_sync_data mw)
  by_inactive :
      (mw : MultiWallet) (seconds : ℤ)
      → Step mw (record mw { sync_data = sync_inactive_for_period mw.sync_data seconds })
  by_add :
      (mw : MultiWallet) (u : String)
      → Step mw (record mw { sync_data = (add_sync_progress_listener mw.sync_data u).1 })
  by_remove :
      (mw : MultiWallet) (u : String)
      → Step mw (record mw { sync_data = remove_sync_progress_listener mw.sync_data u })

pub data Steps : MultiWallet → MultiWallet → Type 0 where
  done : {a : MultiWallet} → Steps a a
  then_step : {a b c : MultiWallet} → Step a b → Steps b c → Steps a c

-- A start is refused while a synchronization is on or done, and refusals change nothing.
pub spv_sync-cases :
    (valid : String → List String) (peers : String) (mw : MultiWallet)
    → ((e : Error) × (spv_sync valid peers mw ≡ (err e, mw)))
      ⊎ ((spv_sync valid peers mw ≡ start_sync mw)
          × (mw.sync_data.syncing ≡ false)
          × (mw.sync_data.synced ≡ false))
unfolding spv_sync
spv_sync-cases valid peers mw = elim (Bool-cases (mw.sync_data.syncing || mw.sync_data.synced)) [
  | inl y ↦ inl (message err_sync_already_in_progress, ground (arith, y))
  | inr y ↦ elim (Bool-cases (str_eq peers "")) [
    | inl e ↦ inr (ground (arith, y, e), ground (arith, y), ground (arith, y))
    | inr e ↦ elim (List-cases (valid peers)) [
      | inl v ↦ inl (message err_invalid_peers, ground (arith, y, e, v))
      | inr (p, ps, v) ↦ inr (ground (arith, y, e, v), ground (arith, y), ground (arith, y))
    ]
  ]
]

spv_sync-IsConsistent :
    (valid : String → List String) (peers : String) (mw : MultiWallet)
    → IsConsistent mw.sync_data
    → IsConsistent (spv_sync valid peers mw).1.sync_data
unfolding start_sync
spv_sync-IsConsistent valid peers mw c = elim (spv_sync-cases valid peers mw) [
  | inl (x, e) ↦
      subst (λ (q : Result Error Bool × MultiWallet). IsConsistent q.1.sync_data) (sym e) c
  | inr (e, a, b) ↦
      subst (λ (q : Result Error Bool × MultiWallet). IsConsistent q.1.sync_data) (sym e)
        (λ h. b, refl, λ h. refl)
]

wallet_synced-IsConsistent :
    (mw mw' : MultiWallet) (id : ℕ) (r : Bool)
    → mw.sync_data.cancelable ≡ true
    → wallet_synced mw id r ≡ some mw'
    → IsConsistent mw.sync_data
    → IsConsistent mw'.sync_data
unfolding wallet_synced
wallet_synced-IsConsistent mw mw' id r c h (x, y, z) =
    elim (Bool-cases (mw.sync_data.synced && r)) [
      | inl s ↦
          let same : mw ≡ mw' = ground (arith, s) in
          subst (λ (m : MultiWallet). IsConsistent m.sync_data) same (x, y, z)
      | inr s ↦ elim (Option-cases (mark_synced id r mw.wallets)) [
        | inl n ↦ absurd (ground (arith, s, n))
        | inr (ws, n) ↦ elim (Bool-cases (opened_wallets_count ws == synced_wallets_count ws)) [
          | inl e ↦
              let same : record {
                wallets = ws;
                sync_data = record mw.sync_data { syncing = false; synced = true };
              }
                  ≡ mw' =
                ground (arith, s, n, e) in
              subst (λ m. IsConsistent m.sync_data) same
                (λ q. absurd (ground (arith, q)), y, λ q. c)
          | inr e ↦
              let same : record mw { wallets = ws } ≡ mw' = ground (arith, s, n, e) in
              subst (λ m. IsConsistent m.sync_data) same (x, y, z)
        ]
      ]
    ]

inactive-IsConsistent :
    (d : SyncData) (s : ℤ) → IsConsistent d → IsConsistent (sync_inactive_for_period d s)
unfolding sync_inactive_for_period
inactive-IsConsistent d s (x, y, z) = elim (Bool-cases d.syncing) [
  | inr n ↦ (λ h. ground (arith, n, h), ground (arith, n, y), λ h. ground (arith, n, h))
  | inl n ↦ elim (Option-cases d.active) [
    | inl a ↦ (λ h. ground (arith, n, a, h), ground (arith, n, a, y), λ h. ground (arith, n, a, h))
    | inr (a, e) ↦
        (λ h. ground (arith, n, e, h), ground (arith, n, e, y), λ h. ground (arith, n, e, h))
  ]
]

Step-IsConsistent :
    (a b : MultiWallet) → Step a b → IsConsistent a.sync_data → IsConsistent b.sync_data
unfolding reset_sync_data add_sync_progress_listener remove_sync_progress_listener
Step-IsConsistent a b (by_spv_sync valid peers mw) c = spv_sync-IsConsistent valid peers mw c
Step-IsConsistent a b (by_synced mw mw' id r c h) i = wallet_synced-IsConsistent mw mw' id r c h i
Step-IsConsistent a b (by_end mw) c = (λ h. refl, refl, λ h. h)
Step-IsConsistent a b (by_inactive mw s) c = inactive-IsConsistent mw.sync_data s c
Step-IsConsistent a b (by_add mw u) (x, y, z) =
    elim (Bool-cases (is_listener u mw.sync_data.listeners)) [
      | inl e ↦ rw e (x, y, z)
      | inr e ↦ rw e (x, y, z)
    ]
Step-IsConsistent a b (by_remove mw u) c = c

Steps-kept : (a b : MultiWallet) → Steps a b → IsConsistent a.sync_data → IsConsistent b.sync_data
Steps-kept a _ done c = c
Steps-kept a d (then_step {b = b} s ss) c = Steps-kept b d ss (Step-IsConsistent a b s c)

current_sync_stage-total :
    (d : SyncData) → IsConsistent d → (stage : ℤ) × (current_sync_stage d ≡ some stage)
unfolding current_sync_stage
current_sync_stage-total d (x, y, z) = elim (Bool-cases d.syncing) [
  | inr n ↦ (invalid_sync_stage, ground (arith, n))
  | inl n ↦ elim (Option-cases d.active) [
    | inl a ↦ absurd (ground (arith, n, a, y, z))
    | inr (a, e) ↦ (a.sync_stage, ground (arith, n, e))
  ]
]

-- After any sequence of steps from a state in which the flags agree (as in a new one they do),
-- they agree: it is not both syncing and synced, in either of these states there is active data
-- and the run can be cancelled, and the current stage can be read. A report of the syncer is a
-- step only while its run can be cancelled.
pub Steps-IsConsistent :
    (a b : MultiWallet)
    → Steps a b
    → IsConsistent a.sync_data
    → IsConsistent b.sync_data × ((stage : ℤ) × (current_sync_stage b.sync_data ≡ some stage))
Steps-IsConsistent a b h c =
    (Steps-kept a b h c, current_sync_stage-total b.sync_data (Steps-kept a b h c))
