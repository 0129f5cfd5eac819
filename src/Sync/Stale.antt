-- ===== src/Sync/Stale.antt =====
-- When a synchronization counts as done.
use btclibwallet.Prelude.{
  ℕ, ◌≡◌, refl, sym, ap, subst, ◌∙◌, String, Bool, true, false, some, List, [], ◌∷◌, ok, arith, inl,
  inr, ◌==◌, map, All, Option-cases, Bool-cases,
}
use btclibwallet.Sync.{
  MultiWallet, Wallet, spv_sync, start_sync, reset_sync_data, wallet_synced, mark_synced,
  set_syncing, set_waiting, opened_wallets_count, synced_wallets_count,
}
use btclibwallet.Sync.Consistent.{spv_sync-cases}

abbrev pub AllSynced : List Wallet → Type 0
AllSynced ws = All (λ (w : Wallet). w.synced ≡ true) ws

counts-AllSynced :
    (ws : List Wallet) → AllSynced ws → opened_wallets_count ws ≡ synced_wallets_count ws
counts-AllSynced [] h = refl
counts-AllSynced (w ∷ ws) (h, hs) = ground (arith, h, counts-AllSynced ws hs)

mark_synced-AllSynced :
    (id : ℕ) (ws ws' : List Wallet)
    → AllSynced ws
    → mark_synced id true ws ≡ some ws'
    → AllSynced ws'
unfolding mark_synced
mark_synced-AllSynced id [] ws' h e = absurd (ground arith)
mark_synced-AllSynced id (w ∷ ws) ws' (h, hs) e = elim (Bool-cases (w.id == id)) [
  | inl y ↦
      let same : record w { synced = true; syncing = false } ∷ ws ≡ ws' = ground (arith, y) in
      subst AllSynced same (refl, hs)
  | inr y ↦ elim (Option-cases (mark_synced id true ws)) [
    | inl n ↦ absurd (ground (arith, y, n))
    | inr (vs, n) ↦
        let same : w ∷ vs ≡ ws' = ground (arith, y, n) in
        subst AllSynced same (h, mark_synced-AllSynced id ws vs hs n)
  ]
]

AllSynced-restarted :
    (ws : List Wallet) → AllSynced ws → AllSynced (map set_syncing (map set_waiting ws))
AllSynced-restarted [] h = tt
AllSynced-restarted (w ∷ ws) (h, hs) = (h, AllSynced-restarted ws hs)

map-set_syncing : (ws : List Wallet) → All (λ (w : Wallet). w.syncing ≡ true) (map set_syncing ws)
map-set_syncing [] = tt
map-set_syncing (w ∷ ws) = (refl, map-set_syncing ws)

wallet_synced-AllSynced :
    (mw mw' : MultiWallet) (id : ℕ)
    → AllSynced mw.wallets
    → wallet_synced mw id true ≡ some mw'
    → mw'.sync_data.synced ≡ true
unfolding wallet_synced
wallet_synced-AllSynced mw mw' id h t = elim (Bool-cases mw.sync_data.synced) [
  | inl y ↦ ground (arith, y)
  | inr y ↦ elim (Option-cases (mark_synced id true mw.wallets)) [
    | inl n ↦ absurd (ground (arith, y, n))
    | inr (ws, n) ↦
        ground (arith, y, n, counts-AllSynced ws (mark_synced-AllSynced id mw.wallets ws h n))
  ]
]

-- The wallets' own flags outlive a synchronization. If every wallet was synced when it ended, and
-- the next one starts, then the first report that any one wallet is synced makes the whole
-- count as synced, while all of them were syncing.
pub stale_flags_end_sync :
    (mw mw1 mw2 : MultiWallet) (valid : String → List String) (peers : String) (r : Bool) (id : ℕ)
    → AllSynced mw.wallets
    → spv_sync valid peers (reset_sync_data mw) ≡ (ok r, mw1)
    → wallet_synced mw1 id true ≡ some mw2
    → All (λ (w : Wallet). w.syncing ≡ true) mw1.wallets × (mw2.sync_data.synced ≡ true)
unfolding start_sync reset_sync_data
stale_flags_end_sync mw mw1 mw2 valid peers r id h s t =
    elim (spv_sync-cases valid peers (reset_sync_data mw)) [
      | inl (x, e) ↦ absurd (ground (arith, ap (λ q. q.0) (sym e ∙ s)))
      | inr (e, a, b) ↦
          let same : (start_sync (reset_sync_data mw)).1 ≡ mw1 = ap (λ q. q.1) (sym e ∙ s) in
          (
            subst (λ (m : MultiWallet). All (λ (w : Wallet). w.syncing ≡ true) m.wallets) same
                (map-set_syncing (map set_waiting mw.wallets)),
            wallet_synced-AllSynced mw1 mw2 id
                (subst (λ (m : MultiWallet). AllSynced m.wallets) same
                  (AllSynced-restarted mw.wallets h))
                t,
          )
    ]
