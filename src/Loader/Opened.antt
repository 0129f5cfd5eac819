-- ===== src/Loader/Opened.antt =====
-- A loader holds one wallet with its database, or neither.
use btclibwallet.Prelude.{
  ◌≡◌, true, Option, none, some, [], ok, err, arith, ◌⊎◌, inl, inr, Result-cases, Option-cases,
  Bool-cases,
}
use btclibwallet.Errors.{Kind, exist}
use btclibwallet.Loader.{
  Host, Loader, on_loaded, run_after_load, file_exists, ensure_dir, initialize, make_database,
  create_with, create_new_wallet, create_watching_only_wallet, open_existing_wallet, loaded_wallet,
}

module _ (H : Host) where
  open H use {
    World, Wallet, Db, Callback, run, open_db, open_wallet, mkdir_all, create_db, stat_db, close_db,
  }

  abbrev pub IsPaired : Loader H → Type 0
  IsPaired l =
      ((l.wallet ≡ none) × (l.db ≡ none))
      ⊎ ((w : Wallet) × (db : Db) × (l.wallet ≡ some w) × (l.db ≡ some db))

  -- A load that succeeds: the loader was empty, and holds the wallet and the database.
  abbrev Loads : Wallet → Loader H → Loader H → Type 0
  Loads w l l' =
      (l.wallet ≡ none) × (l'.wallet ≡ some w) × (l'.callbacks ≡ []) × (db : Db) × (l'.db ≡ some db)

  pub open_existing_wallet-ok :
      (l l' : Loader H) (w : Wallet) (s s' : World)
      → open_existing_wallet H l s ≡ (ok w, l', s')
      → Loads w l l'
  unfolding open_existing_wallet on_loaded
  open_existing_wallet-ok l l' w s s' h = elim (Option-cases l.wallet) [
    | inr (v, e) ↦ absurd (ground (arith, e))
    | inl e ↦ elim (Result-cases (open_db s).0) [
      | inr (x, d) ↦ absurd (ground (arith, e, d))
      | inl (db, d) ↦ elim (Result-cases (open_wallet db (open_db s).1).0) [
        | inr (x, o) ↦ absurd (ground (arith, e, d, o))
        | inl (v, o) ↦
            (e, ground (arith, e, d, o), ground (arith, e, d, o), db, ground (arith, e, d, o))
      ]
    ]
  ]

  initialize-ok :
      (create : Db → World → Option Kind × World) (l l' : Loader H) (db : Db) (w : Wallet)
      (s s' : World)
      → initialize H create l db s ≡ (ok w, l', s')
      → (l'.wallet ≡ some w) × (l'.callbacks ≡ []) × (l'.db ≡ some db)
  unfolding initialize on_loaded
  initialize-ok create l l' db w s s' h = elim (Option-cases (create db s).0) [
    | inr (k, e) ↦ absurd (ground (arith, e))
    | inl e ↦ elim (Result-cases (open_wallet db (create db s).1).0) [
      | inr (x, o) ↦ absurd (ground (arith, e, o))
      | inl (v, o) ↦ (ground (arith, e, o), ground (arith, e, o), ground (arith, e, o))
    ]
  ]

  make_database-ok :
      (create : Db → World → Option Kind × World) (l l' : Loader H) (w : Wallet) (s s' : World)
      → make_database H create l s ≡ (ok w, l', s')
      → (l'.wallet ≡ some w) × (l'.callbacks ≡ []) × (db : Db) × (l'.db ≡ some db)
  unfolding make_database
  make_database-ok create l l' w s s' h = elim (Result-cases (mkdir_all s)) [
    | inr (x, e) ↦ absurd (ground (arith, e))
    | inl (s1, e) ↦ elim (Result-cases (create_db s1).0) [
      | inr (x, d) ↦ absurd (ground (arith, e, d))
      | inl (db, d) ↦
          let (a, b, c) =
            initialize-ok create l l' db w (create_db s1).1 s' (ground (arith, e, d)) in
          (a, b, db, c)
    ]
  ]

  pub create_with-ok :
      (not_dir : Kind) (create : Db → World → Option Kind × World) (l l' : Loader H) (w : Wallet)
      (s s' : World)
      → create_with H not_dir create l s ≡ (ok w, l', s')
      → Loads w l l'
  unfolding create_with
  create_with-ok not_dir create l l' w s s' h = elim (Option-cases l.wallet) [
    | inr (v, e) ↦ absurd (ground (arith, e))
    | inl e ↦ elim (Result-cases (ensure_dir H not_dir s)) [
      | inr (x, d) ↦ absurd (ground (arith, e, d))
      | inl (s1, d) ↦ elim (Result-cases (file_exists (stat_db s1))) [
        | inr (x, f) ↦ absurd (ground (arith, e, d, f))
        | inl (b, f) ↦ elim (Bool-cases b) [
          | inl y ↦ absurd (ground (arith, e, d, f, y))
          | inr y ↦
              let (a, b, db, c) =
                make_database-ok create l l' w s1 s' (ground (arith, e, d, f, y)) in
              (e, a, b, db, c)
        ]
      ]
    ]
  ]

  -- A wallet that `OpenExistingWallet`, `CreateNewWallet` or `CreateWatchingOnlyWallet` loaded is
  -- the only one: the loader held none before and holds this one, each of the three fails then as
  -- a wallet exists and changes nothing, and a callback that is added runs at once.
  pub loads_once :
      (l l' : Loader H) (w : Wallet) (s s' : World) (not_dir : Kind)
      (create : Db → World → Option Kind × World)
      → (open_existing_wallet H l s ≡ (ok w, l', s'))
        ⊎ (create_with H not_dir create l s ≡ (ok w, l', s'))
      → (l.wallet ≡ none)
        × (loaded_wallet H l' ≡ (some w, true))
        × ((t : World) → open_existing_wallet H l' t ≡ (err exist, l', t))
        × ((t : World) → create_new_wallet H create l' t ≡ (err exist, l', t))
        × ((t : World) → create_watching_only_wallet H create l' t ≡ (err exist, l', t))
        × ((c : Callback) (t : World) → run_after_load H l' c t ≡ (l', run c w t))
  unfolding open_existing_wallet create_with run_after_load
  loads_once l l' w s s' not_dir create h =
      let done : Loads w l l' = elim h [
        | inl o ↦ open_existing_wallet-ok l l' w s s' o
        | inr c ↦ create_with-ok not_dir create l l' w s s' c
      ] in
      let (e, g, c, db, d) = done in
      (
        e,
        ground (arith, g),
        λ t. ground (arith, g),
        λ t. ground (arith, g),
        λ t. ground (arith, g),
        λ c t. ground (arith, g),
      )
