-- ===== src/Sync/Tests.antt =====
-- Two wallets that synchronize twice.
use btclibwallet.Prelude.{ℕ, ◌≡◌, refl, String, true, false, some, List, [], ◌∷◌, ok, All, arith}
use btclibwallet.Prelude.Int.{ℤ, pos}
use btclibwallet.Sync.{
  MultiWallet, SyncData, Wallet, spv_sync, start_sync, reset_sync_data, wallet_synced, mark_synced,
  current_sync_stage, set_syncing, fresh, add_sync_progress_listener, is_listener,
  publish_last_sync_progress, nothing,
}
use btclibwallet.Sync.Consistent.{
  IsConsistent, done, then_step, by_spv_sync, by_end, Steps-IsConsistent,
}
use btclibwallet.Sync.Stale.{stale_flags_end_sync}

abbrev wallet : ℕ → ℤ → Wallet
wallet id height = record {
  id = id;
  opened = true;
  waiting = false;
  syncing = false;
  synced = true;
  best_block = height;
  best_block_timestamp = pos 1000;
}

abbrev idle : SyncData
idle = record {
  listeners = [];
  synced = true;
  syncing = false;
  cancelable = true;
  restart_sync_requested = false;
  connected_peers = pos 0;
  active = some fresh;
}

abbrev mw : MultiWallet
mw = record { wallets = wallet 1 (pos 50) ∷ wallet 2 (pos 70) ∷ []; sync_data = idle }

abbrev restarted : MultiWallet
restarted = record {
  wallets = set_syncing (wallet 1 (pos 50)) ∷ set_syncing (wallet 2 (pos 70)) ∷ [];
  sync_data = record idle { synced = false; syncing = true };
}

abbrev too_early : MultiWallet
too_early = record {
  wallets =
      record (set_syncing (wallet 1 (pos 50))) { syncing = false }
      ∷ set_syncing (wallet 2 (pos 70))
      ∷ [];
  sync_data = idle;
}

abbrev no_peers : String → List String
no_peers s = []

stale_flags_end_sync_example :
    All (λ (w : Wallet). w.syncing ≡ true) restarted.wallets × (true ≡ true)
unfolding spv_sync start_sync reset_sync_data wallet_synced mark_synced
stale_flags_end_sync_example =
    stale_flags_end_sync mw restarted too_early no_peers "" false 1 (refl, (refl, tt)) refl refl

Steps-IsConsistent_example :
    IsConsistent restarted.sync_data
    × ((stage : ℤ) × (current_sync_stage restarted.sync_data ≡ some stage))
unfolding spv_sync start_sync reset_sync_data
Steps-IsConsistent_example =
    Steps-IsConsistent mw restarted
      (then_step (by_end mw) (then_step (by_spv_sync no_peers "" (reset_sync_data mw)) done))
      (λ h. absurd (ground (arith, h)), refl, λ h. refl)

told : (add_sync_progress_listener restarted.sync_data "ui").0 ≡ ok nothing
unfolding add_sync_progress_listener is_listener publish_last_sync_progress
told = refl
