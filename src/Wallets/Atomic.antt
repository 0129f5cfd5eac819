-- ===== src/Wallets/Atomic.antt =====
-- multiwallet.go, `saveNewWallet`: what is left of a batch that fails.
use btclibwallet.Prelude.{
  refl, sym, subst, Bool, ℕ, ◌≡◌, ◌⊎◌, inl, inr, ap, ◌∙◌, true, false, Option, none, some, [], ◌∷◌,
  ◌++◌, Result, ok, err, Bool-cases, Option-cases, Result-cases, arith,
}
use btclibwallet.Errors.{Error, message, translate_error, err_exist, err_sync_already_in_progress}
use btclibwallet.Wallets.{Wallet, Vault, State, wallet_name_exists}
use btclibwallet.Wallets.Created.{
  free_directory, complete_wallet, new_wallet_op, end_batch, batch_db_transaction, save_new_wallet,
}

module _ (V : Vault) where
  open V use {Db, begin, save_new, save_again, rollback, commit_batch}

  -- What storm documents of a transaction: it is the only one that is open; others see its writes
  -- when it is committed; a rollback and a commit, also one that fails, close it.
  pub record IsBatching (Contents : Type 0) : Type 0 where
    pub contents : Db → Contents
    pub pending : Db → Contents
    pub is_open : Db → Bool
    pub begin-open : (d : Db) → (begin d).1 ≡ none → is_open (begin d).0 ≡ true
    pub begin-failed : (d : Db) (e : Error) → (begin d).1 ≡ some e → is_open (begin d).0 ≡ is_open d
    pub contents-begin : (d : Db) → contents (begin d).0 ≡ contents d
    pub save_new-open :
        (d : Db) (w : Wallet)
        → is_open d ≡ true
        → (is_open (save_new d w).0 ≡ true) × (contents (save_new d w).0 ≡ contents d)
    pub save_again-open :
        (d : Db) (w : Wallet)
        → is_open d ≡ true
        → (is_open (save_again d w).0 ≡ true) × (contents (save_again d w).0 ≡ contents d)
    pub rollback-open :
        (d : Db)
        → is_open d ≡ true
        → (is_open (rollback d) ≡ false) × (contents (rollback d) ≡ contents d)
    pub commit-closed : (d : Db) → is_open d ≡ true → is_open (commit_batch d).0 ≡ false
    pub contents-commit :
        (d : Db)
        → is_open d ≡ true
        → (commit_batch d).1 ≡ none
        → contents (commit_batch d).0 ≡ pending d
    pub contents-commit_failed :
        (d : Db) (e : Error)
        → is_open d ≡ true
        → (commit_batch d).1 ≡ some e
        → contents (commit_batch d).0 ≡ contents d

  module _ {Contents : Type 0} (laws : IsBatching Contents) where
    open laws use {contents, pending, is_open}

    -- What the batch did before its end.
    abbrev pub IsSaved : Wallet → (Wallet → Option Error) → Db → Db → Wallet → Type 0
    IsSaved w setup_wallet db second w' =
        (id : ℕ) × (first : Db) × (save_new (begin db).0 w ≡ (first, ok id))
        × (w' ≡ complete_wallet V w id)
        × (save_again first w' ≡ (second, none))
        × (setup_wallet w' ≡ none)

    -- The function leaves the batch open, and others see none of it.
    new_wallet_op-open :
        (w : Wallet) (setup_wallet : Wallet → Option Error) (d : Db)
        → is_open d ≡ true
        → (is_open (new_wallet_op V w setup_wallet d).0 ≡ true)
          × (contents (new_wallet_op V w setup_wallet d).0 ≡ contents d)
    unfolding new_wallet_op
    new_wallet_op-open w setup_wallet d o =
        let a = laws.save_new-open d w o in
        elim (Result-cases (save_new d w).1) [
          | inr (e, n) ↦ rw (new_wallet_op, n) a
          | inl (id, n) ↦ elim (Option-cases (free_directory V id)) [
            | inr (e, f) ↦ rw (new_wallet_op, n, f) a
            | inl f ↦
                let b = laws.save_again-open (save_new d w).0 (complete_wallet V w id) a.0 in
                let last : Db = (save_again (save_new d w).0 (complete_wallet V w id)).0 in
                let both : (is_open last ≡ true) × (contents last ≡ contents d) =
                  (b.0, b.1 ∙ a.1) in
                elim (Option-cases (save_again (save_new d w).0 (complete_wallet V w id)).1) [
                  | inr (e, v) ↦ rw (new_wallet_op, n, f, v) both
                  | inl v ↦ elim (Option-cases (setup_wallet (complete_wallet V w id))) [
                    | inr (e, u) ↦ rw (new_wallet_op, n, f, v, u) both
                    | inl u ↦ rw (new_wallet_op, n, f, v, u) both
                  ]
                ]
          ]
        ]

    new_wallet_op-IsSaved :
        (w w' : Wallet) (setup_wallet : Wallet → Option Error) (db : Db)
        → (new_wallet_op V w setup_wallet (begin db).0).1 ≡ ok w'
        → IsSaved w setup_wallet db (new_wallet_op V w setup_wallet (begin db).0).0 w'
    unfolding new_wallet_op
    new_wallet_op-IsSaved w w' setup_wallet db h =
        let first = save_new (begin db).0 w in
        elim (Result-cases first.1) [
          | inr (e, n) ↦ absurd (ground (arith, h, n))
          | inl (id, n) ↦ elim (Option-cases (free_directory V id)) [
            | inr (e, f) ↦ absurd (ground (arith, h, n, f))
            | inl f ↦ elim (Option-cases (save_again first.0 (complete_wallet V w id)).1) [
              | inr (e, v) ↦ absurd (ground (arith, h, n, f, v))
              | inl v ↦ elim (Option-cases (setup_wallet (complete_wallet V w id))) [
                | inr (e, u) ↦ absurd (ground (arith, h, n, f, v, u))
                | inl u ↦
                    let same : w' ≡ complete_wallet V w id = ground (arith, h, n, f, v, u) in
                    let left : (new_wallet_op V w setup_wallet (begin db).0).0
                        ≡ (save_again first.0 (complete_wallet V w id)).0 =
                      rw (new_wallet_op, n, f, v, u) refl in
                    (
                      id,
                      first.0,
                      ap (λ x. (first.0, x)) n,
                      same,
                      ap (save_again first.0) same
                          ∙ ap (λ x. ((save_again first.0 (complete_wallet V w id)).0, x)) v
                          ∙ ap (λ x. (x, none)) (sym left),
                      ap setup_wallet same ∙ u,
                    )
              ]
            ]
          ]
        ]

    -- All or nothing, and closed.
    abbrev pub IsAtomic : Wallet → (Wallet → Option Error) → Db → Db × Result Error Wallet → Type 0
    IsAtomic w setup_wallet db r =
        (is_open r.0 ≡ false)
        × (((e : Error) × (r.1 ≡ err e) × (contents r.0 ≡ contents db))
            ⊎ ((w' : Wallet) × (second : Db) × (r.1 ≡ ok w')
                × IsSaved w setup_wallet db second w'
                × (contents r.0 ≡ pending second)))

    batch-IsAtomic :
        (w : Wallet) (setup_wallet : Wallet → Option Error) (db : Db)
        → is_open db ≡ false
        → IsAtomic w setup_wallet db (batch_db_transaction V (new_wallet_op V w setup_wallet) db)
    unfolding batch_db_transaction end_batch
    batch-IsAtomic w setup_wallet db c = elim (Option-cases (begin db).1) [
      | inr (e, b) ↦
          rw (batch_db_transaction, b)
            (laws.begin-failed db e b ∙ c, inl (e, refl, laws.contents-begin db))
      | inl b ↦
          let r = new_wallet_op V w setup_wallet (begin db).0 in
          let (o, k) = new_wallet_op-open w setup_wallet (begin db).0 (laws.begin-open db b) in
          let kept = k ∙ laws.contents-begin db in
          elim (Result-cases r.1) [
            | inr (e, x) ↦
                let g = laws.rollback-open r.0 o in
                rw (batch_db_transaction, b, end_batch, x) (g.0, inl (e, refl, g.1 ∙ kept))
            | inl (w', x) ↦
                let closed = laws.commit-closed r.0 o in
                elim (Option-cases (commit_batch r.0).1) [
                  | inr (e, y) ↦
                      rw (batch_db_transaction, b, end_batch, x, y)
                        (closed, inl (e, refl, laws.contents-commit_failed r.0 e o y ∙ kept))
                  | inl y ↦
                      rw (batch_db_transaction, b, end_batch, x, y)
                        (
                          closed,
                          inr (
                            w',
                            r.0,
                            refl,
                            new_wallet_op-IsSaved w w' setup_wallet db x,
                            laws.contents-commit r.0 o y,
                          ),
                        )
                ]
          ]
    ]

    abbrev pub IsCreated :
        State V → Wallet → (Wallet → Option Error) → State V × Result Error Wallet → Type 0
    IsCreated s w setup_wallet r =
        (is_open r.0.db ≡ false)
        × (((e : Error) × (r.1 ≡ err e)
              × (r.0.wallets ≡ s.wallets)
              × (contents r.0.db ≡ contents s.db))
            ⊎ ((w' : Wallet) × (second : Db) × (r.1 ≡ ok w')
                × (r.0.wallets ≡ s.wallets ++ w' ∷ [])
                × (wallet_name_exists V s w.name ≡ ok false)
                × (s.connected ≡ false)
                × IsSaved w setup_wallet s.db second w'
                × (contents r.0.db ≡ pending second)))

    -- A new wallet is all or nothing. With no transaction open before, none is open after, and
    -- either an error comes back, the table has not changed and others see the database as it was,
    -- though its batch may have failed at any step, the commit included; or the name was not
    -- taken, the network was not connected, the wallet has the id that the database gave, was
    -- saved with it and its name in the batch and set up, the database has what was pending in
    -- the batch, and the wallet is the last in the table.
    pub save_new_wallet_atomic :
        (s : State V) (w : Wallet) (setup_wallet : Wallet → Option Error)
        → is_open s.db ≡ false
        → IsCreated s w setup_wallet (save_new_wallet V s w setup_wallet)
    unfolding save_new_wallet
    save_new_wallet_atomic s w setup_wallet c =
        elim (Result-cases (wallet_name_exists V s w.name)) [
          | inr (e, x) ↦ rw (save_new_wallet, x) (c, inl (e, refl, refl, refl))
          | inl (true, x) ↦ rw (save_new_wallet, x) (c, inl (message err_exist, refl, refl, refl))
          | inl (false, x) ↦ elim (Bool-cases s.connected) [
            | inl y ↦
                let same : save_new_wallet V s w setup_wallet
                    ≡ (s, err (message err_sync_already_in_progress)) =
                  ground (arith, x, y) in
                subst (IsCreated s w setup_wallet) (sym same)
                  (c, inl (message err_sync_already_in_progress, refl, refl, refl))
            | inr y ↦
                let (closed, r) = batch-IsAtomic w setup_wallet s.db c in
                let db : Db = (batch_db_transaction V (new_wallet_op V w setup_wallet) s.db).0 in
                elim r [
                  | inl (e, b, k) ↦
                      let same : save_new_wallet V s w setup_wallet
                          ≡ (record s { db = db }, err (translate_error e)) =
                        ground (arith, x, y, b) in
                      subst (IsCreated s w setup_wallet) (sym same)
                        (closed, inl (translate_error e, refl, refl, k))
                  | inr (w', second, b, saved, k) ↦
                      let same : save_new_wallet V s w setup_wallet
                          ≡ (record s { db = db; wallets = s.wallets ++ w' ∷ [] }, ok w') =
                        ground (arith, x, y, b) in
                      subst (IsCreated s w setup_wallet) (sym same)
                        (closed, inr (w', second, refl, refl, x, y, saved, k))
                ]
          ]
        ]
