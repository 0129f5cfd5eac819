-- ===== src/Spv/Notified.antt =====
-- spv/sync.go: the flags of the syncer, the notifications and the loaded filters agree.
use btclibwallet.Prelude.{
  ℕ, ◌≡◌, ◌⊎◌, Elem, inl, inr, refl, sym, subst, Bool, true, false, Option, none, some, List, [],
  ◌∷◌, ◌++◌, if◌then◌else◌, ◌==◌, arith, ==_iff, Bool-cases, Option-cases, Result-cases,
}
use btclibwallet.Errors.{Error}
use btclibwallet.Spv.{Hash}
use btclibwallet.Spv.Kept.{is_other, startup_sync-kept}
use btclibwallet.Spv.Startup.{
  Notification, ntfn_synced, rescan_finished, Syncer, set_flag, notify, synced, unsynced, WalletRun,
  set_loaded, end_rescan, rescan_wallet, catch_up, startup_sync,
}

-- What an application that follows the notifications knows: none where one brings it nothing new.
unfoldable pub hear : Notification → (ℕ → Bool) → Option (ℕ → Bool)
hear (ntfn_synced id true) m = if m id then none else some (set_flag m id true)
hear (ntfn_synced id false) m = if m id then some (set_flag m id false) else none
hear n m = some m

unfoldable pub follow : List Notification → (ℕ → Bool) → Option (ℕ → Bool)
follow [] m = some m
follow (n ∷ ns) m = elim (hear n m) [ none ↦ none | some m' ↦ follow ns m' ]

-- The application knows the flags of the syncer, and each notification was a change.
abbrev pub IsFollowed : (ℕ → Bool) → Syncer → Type 0
IsFollowed start s = (follow s.sent start ≡ some s.wallets_synced)

-- A synced wallet has its addresses loaded.
abbrev pub IsLoadedIfSynced : Syncer → Type 0
IsLoadedIfSynced s = (id : ℕ) → s.wallets_synced id ≡ true → s.loaded_filters id ≡ true

follow-append :
    (ns : List Notification) (n : Notification) (m m' m'' : ℕ → Bool)
    → follow ns m ≡ some m'
    → hear n m' ≡ some m''
    → follow (ns ++ n ∷ []) m ≡ some m''
unfolding follow
follow-append [] n m m' m'' h k = ground (arith, h, k)
follow-append (x ∷ ns) n m m' m'' h k = elim (Option-cases (hear x m)) [
  | inl e ↦ absurd (ground (arith, h, e))
  | inr (l, e) ↦ rw (follow, e) (follow-append ns n l m' m'' (ground (arith, h, e)) k)
]

hear-other : (n : Notification) (m : ℕ → Bool) → is_other n ≡ true → hear n m ≡ some m
unfolding hear
hear-other n m h = ground (arith, h)

module _ (start : ℕ → Bool) where
  synced-IsFollowed : (id : ℕ) (s : Syncer) → IsFollowed start s → IsFollowed start (synced id s)
  unfolding synced notify hear
  synced-IsFollowed id s p = elim (Bool-cases (s.wallets_synced id)) [
    | inl y ↦ rw y p
    | inr n ↦
        rw n (follow-append s.sent (ntfn_synced id true) start s.wallets_synced _ p (rw n refl))
  ]

  unsynced-IsFollowed :
      (id : ℕ) (s : Syncer) → IsFollowed start s → IsFollowed start (unsynced id s)
  unfolding unsynced notify hear
  unsynced-IsFollowed id s p = elim (Bool-cases (s.wallets_synced id)) [
    | inl y ↦
        rw y (follow-append s.sent (ntfn_synced id false) start s.wallets_synced _ p (rw y refl))
    | inr n ↦ rw n p
  ]

  -- An application that follows the notifications of the wallets that become synced or unsynced
  -- knows the flags of the syncer after a startup, however it ends, if it knew them before; no
  -- notification tells it what it already knew.
  pub startup_sync-IsFollowed :
      (initial tip : ℕ) (headers : Option Error) (ws : List WalletRun) (s : Syncer)
      → IsFollowed start s
      → IsFollowed start (startup_sync initial tip headers ws s).0
  unfolding notify set_loaded
  startup_sync-IsFollowed initial tip headers ws s =
      startup_sync-kept (IsFollowed start) (λ w. Unit)
        (λ n s o p.
          follow-append s.sent n start s.wallets_synced s.wallets_synced p
            (hear-other n s.wallets_synced o))
        (λ w s r l p. p) (λ id s h p. synced-IsFollowed id s p) unsynced-IsFollowed (λ b s p. p)
        initial tip headers ws s (λ w i. tt)

synced-IsLoadedIfSynced :
    (id : ℕ) (s : Syncer)
    → s.loaded_filters id ≡ true
    → IsLoadedIfSynced s
    → IsLoadedIfSynced (synced id s)
unfolding synced notify
synced-IsLoadedIfSynced id s l p = elim (Bool-cases (s.wallets_synced id)) [
  | inl y ↦ rw y p
  | inr n ↦ rw n (λ j h. elim (Bool-cases (j == id)) [
    | inl e ↦ subst (λ t. s.loaded_filters t ≡ true) (sym ((==_iff j id).0 e)) l
    | inr e ↦ p j (ground (arith, h, e))
  ])
]

unsynced-IsLoadedIfSynced :
    (id : ℕ) (s : Syncer) → IsLoadedIfSynced s → IsLoadedIfSynced (unsynced id s)
unfolding unsynced notify
unsynced-IsLoadedIfSynced id s p = elim (Bool-cases (s.wallets_synced id)) [
  | inl y ↦ rw y (λ j h. p j (ground (arith, h)))
  | inr n ↦ rw n p
]

-- A wallet's addresses were loaded before, or by a wallet of the startup with its id, without error.
abbrev pub IsLoader : Syncer → List WalletRun → ℕ → Type 0
IsLoader before ws id =
    (before.loaded_filters id ≡ true)
    ⊎ ((w : WalletRun) × Elem w ws × (w.id ≡ id) × (w.load_filters ≡ none))

abbrev IsKept : Syncer → List WalletRun → Syncer → Type 0
IsKept before ws s =
    IsLoadedIfSynced s × ((id : ℕ) → s.loaded_filters id ≡ true → IsLoader before ws id)

set_loaded-IsKept :
    (before : Syncer) (ws : List WalletRun) (w : WalletRun) (s : Syncer)
    → Elem w ws
    → w.load_filters ≡ none
    → IsKept before ws s
    → IsKept before ws (set_loaded w.id s)
unfolding set_loaded
set_loaded-IsKept before ws w s i l p = (
  λ j h. ground (arith, p.0 j h),
  λ j h. elim (Bool-cases (j == w.id)) [
    | inl e ↦ inr (w, i, sym ((==_iff j w.id).0 e), l)
    | inr e ↦ p.1 j (ground (arith, h, e))
  ],
)

synced-IsKept :
    (before : Syncer) (ws : List WalletRun) (id : ℕ) (s : Syncer)
    → s.loaded_filters id ≡ true
    → IsKept before ws s
    → IsKept before ws (synced id s)
unfolding synced notify
synced-IsKept before ws id s l p = (
  synced-IsLoadedIfSynced id s l p.0,
  elim (Bool-cases (s.wallets_synced id)) [ inl y ↦ rw y p.1 | inr n ↦ rw n p.1 ],
)

unsynced-IsKept :
    (before : Syncer) (ws : List WalletRun) (id : ℕ) (s : Syncer)
    → IsKept before ws s
    → IsKept before ws (unsynced id s)
unfolding unsynced notify
unsynced-IsKept before ws id s p = (
  unsynced-IsLoadedIfSynced id s p.0,
  elim (Bool-cases (s.wallets_synced id)) [ inl y ↦ rw y p.1 | inr n ↦ rw n p.1 ],
)

-- If every wallet that is marked as synced had its filter marked as loaded before a startup, then so
-- it is after, however the startup ends, and of each wallet that is then marked as synced the
-- filter was marked as loaded before, or a wallet of the startup with its id loaded its addresses
-- and outpoints without an error.
pub startup_sync-IsLoaded :
    (initial tip : ℕ) (headers : Option Error) (ws : List WalletRun) (s : Syncer)
    → IsLoadedIfSynced s
    → IsLoadedIfSynced (startup_sync initial tip headers ws s).0
      × ((id : ℕ)
          → (startup_sync initial tip headers ws s).0.wallets_synced id ≡ true
          → IsLoader s ws id)
unfolding notify
startup_sync-IsLoaded initial tip headers ws s h =
    let p =
      startup_sync-kept (IsKept s ws) (λ w. Elem w ws) (λ n t o p. p)
        (λ w t i l p. set_loaded-IsKept s ws w t i l p) (synced-IsKept s ws) (unsynced-IsKept s ws)
        (λ b t p. p) initial tip headers ws s (λ w i. i) (h, λ id l. inl l) in
    (p.0, λ id e. p.1 id (p.0 id e))

synced-wallets_synced : (id : ℕ) (s : Syncer) → (synced id s).wallets_synced id ≡ true
unfolding synced notify
synced-wallets_synced id s = elim (Bool-cases (s.wallets_synced id)) [
  | inl y ↦ rw (synced, y) y
  | inr n ↦ rw (synced, n) (ground arith)
]

end_rescan-synced :
    (id : ℕ) (r : Syncer × Option Error)
    → (end_rescan id r).1 ≡ none
    → (end_rescan id r).0.wallets_synced id ≡ true
unfolding end_rescan
end_rescan-synced id (s, some e) h = absurd (cc h)
end_rescan-synced id (s, none) h = synced-wallets_synced id (notify (rescan_finished id) s)

rescan_wallet-synced :
    (w : WalletRun) (point : Hash) (s : Syncer)
    → (rescan_wallet w point s).1 ≡ none
    → (rescan_wallet w point s).0.wallets_synced w.id ≡ true
unfolding rescan_wallet
rescan_wallet-synced w point s = elim (Option-cases w.load_filters) [
  | inr (e, l) ↦ rw (rescan_wallet, l) (λ h. absurd (cc h))
  | inl l ↦ elim (Result-cases (w.block_header point)) [
    | inr (e, b) ↦ rw (rescan_wallet, l, b) (λ h. absurd (cc h))
    | inl (n, b) ↦ rw (rescan_wallet, l, b) (end_rescan-synced w.id _)
  ]
]

-- A wallet whose turn ends without an error is marked as synced.
pub catch_up-synced :
    (w : WalletRun) (s : Syncer)
    → (catch_up w s).1 ≡ none
    → (catch_up w s).0.wallets_synced w.id ≡ true
unfolding catch_up
catch_up-synced w s = elim (Result-cases w.rescan_point) [
  | inr (e, r) ↦ rw (catch_up, r) (λ h. absurd (cc h))
  | inl (o, r) ↦ elim (Option-cases o) [
    | inl n ↦ elim (Bool-cases (s.loaded_filters w.id)) [
      | inl y ↦ rw (catch_up, r, n, y) (λ h. synced-wallets_synced w.id s)
      | inr y ↦ elim (Option-cases w.load_filters) [
        | inr (e, l) ↦ rw (catch_up, r, n, y, l) (λ h. absurd (cc h))
        | inl l ↦ rw (catch_up, r, n, y, l) (λ h. synced-wallets_synced w.id (set_loaded w.id s))
      ]
    ]
    | inr (point, n) ↦ elim (Option-cases w.discover) [
      | inr (e, d) ↦ rw (catch_up, r, n, d) (λ h. absurd (cc h))
      | inl d ↦ rw (catch_up, r, n, d) (rescan_wallet-synced w point _)
    ]
  ]
]
