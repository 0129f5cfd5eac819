-- ===== src/Loader/Failed.antt =====
-- What is left after a load that fails.
use btclibwallet.Prelude.{
  ◌≡◌, ◌≢◌, ap, ◌∙◌, false, Option, some, ok, err, arith, ◌⊎◌, inl, inr, Result-cases, Option-cases,
  Bool-cases,
}
use btclibwallet.Errors.{Kind}
use btclibwallet.Loader.{
  Host, Loader, file_exists, ensure_dir, initialize, make_database, create_with,
  open_existing_wallet,
}

module _ (H : Host) where
  open H use {
    World, Wallet, Db, Callback, run, open_db, open_wallet, mkdir_all, create_db, stat_db, close_db,
    remove_db,
  }

  -- An `OpenExistingWallet` that fails leaves the loader as it was. Either it held a wallet and
  -- nothing was done, or the database did not open, or it opened and was closed as the last step.
  pub open_existing_wallet-failed :
      (l l' : Loader H) (k : Kind) (s s' : World)
      → open_existing_wallet H l s ≡ (err k, l', s')
      → (l' ≡ l)
        × (((w : Wallet) × (l.wallet ≡ some w) × (s' ≡ s))
            ⊎ (((open_db s).0 ≡ err k) × (s' ≡ (open_db s).1))
            ⊎ ((db : Db) × ((open_db s).0 ≡ ok db)
                × (s' ≡ (close_db db (open_wallet db (open_db s).1).1).1)))
  unfolding open_existing_wallet
  open_existing_wallet-failed l l' k s s' h = elim (Option-cases l.wallet) [
    | inr (v, e) ↦ (ground (arith, e), inl (v, e, ground (arith, e)))
    | inl e ↦ elim (Result-cases (open_db s).0) [
      | inr (x, d) ↦ (ground (arith, e, d), inr (inl (ground (arith, e, d), ground (arith, e, d))))
      | inl (db, d) ↦ elim (Result-cases (open_wallet db (open_db s).1).0) [
        | inl (v, o) ↦ absurd (ground (arith, e, d, o))
        | inr (x, o) ↦ (ground (arith, e, d, o), inr (inr (db, d, ground (arith, e, d, o))))
      ]
    ]
  ]

  make_database-failed :
      (create : Db → World → Option Kind × World) (l l' : Loader H) (k : Kind) (s s' : World)
      → make_database H create l s ≡ (err k, l', s')
      → (l' ≡ l) × (t : World) × (s' ≡ remove_db t)
  unfolding make_database initialize
  make_database-failed create l l' k s s' h = elim (Result-cases (mkdir_all s)) [
    | inr (x, e) ↦ (ground (arith, e), s, ground (arith, e))
    | inl (s1, e) ↦ elim (Result-cases (create_db s1).0) [
      | inr (x, d) ↦ (ground (arith, e, d), (create_db s1).1, ground (arith, e, d))
      | inl (db, d) ↦ elim (Option-cases (create db (create_db s1).1).0) [
        | inr (x, i) ↦
            (ground (arith, e, d, i), (create db (create_db s1).1).1, ground (arith, e, d, i))
        | inl i ↦ elim (Result-cases (open_wallet db (create db (create_db s1).1).1).0) [
          | inr (x, o) ↦ (
            ground (arith, e, d, i, o),
            (open_wallet db (create db (create_db s1).1).1).1,
            ground (arith, e, d, i, o),
          )
          | inl (v, o) ↦ absurd (ground (arith, e, d, i, o))
        ]
      ]
    ]
  ]

  -- A creation that fails leaves the loader as it was. Its last step removes the database just
  -- where there was none after the directory was made sure of; where a wallet is loaded, the
  -- directory cannot be had or a database is there, nothing is removed.
  pub create_with-failed :
      (not_dir : Kind) (create : Db → World → Option Kind × World) (l l' : Loader H) (k : Kind)
      (s s' : World)
      → create_with H not_dir create l s ≡ (err k, l', s')
      → (l' ≡ l)
        × ((s' ≡ s)
            ⊎ ((ensure_dir H not_dir s ≡ ok s') × (file_exists (stat_db s') ≢ ok false))
            ⊎ ((s1 t : World) × (ensure_dir H not_dir s ≡ ok s1)
                × (file_exists (stat_db s1) ≡ ok false)
                × (s' ≡ remove_db t)))
  unfolding create_with
  create_with-failed not_dir create l l' k s s' h = elim (Option-cases l.wallet) [
    | inr (v, e) ↦ (ground (arith, e), inl (ground (arith, e)))
    | inl e ↦ elim (Result-cases (ensure_dir H not_dir s)) [
      | inr (x, d) ↦ (ground (arith, e, d), inl (ground (arith, e, d)))
      | inl (s1, d) ↦ elim (Result-cases (file_exists (stat_db s1))) [
        | inr (x, f) ↦
            let same : s1 ≡ s' = ground (arith, e, d, f) in
            (
              ground (arith, e, d, f),
              inr (
                  inl (
                    d ∙ ap ok same,
                    λ q. absurd (ground (arith, f, ap (λ z. file_exists (stat_db z)) same, q)),
                  )),
            )
        | inl (b, f) ↦ elim (Bool-cases b) [
          | inl y ↦
              let same : s1 ≡ s' = ground (arith, e, d, f, y) in
              (
                ground (arith, e, d, f, y),
                inr (
                    inl (
                      d ∙ ap ok same,
                      λ q. absurd (ground (arith, f, y, ap (λ z. file_exists (stat_db z)) same, q)),
                    )),
              )
          | inr y ↦
              let (a, t, r) =
                make_database-failed create l l' k s1 s' (ground (arith, e, d, f, y)) in
              (a, inr (inr (s1, t, d, f ∙ ap ok y, r)))
        ]
      ]
    ]
  ]
