-- ===== src/Loader/Steps.antt =====
-- Sequences of a loader's operations, and what they keep.
use btclibwallet.Prelude.{
  ◌≡◌, sym, ap, subst, Option, none, some, arith, inl, inr, Result-cases, Option-cases,
}
use btclibwallet.Errors.{Kind, invalid}
use btclibwallet.Loader.{
  Host, Loader, run_after_load, create_with, open_existing_wallet, unload_wallet,
}
use btclibwallet.Loader.Opened.{IsPaired, open_existing_wallet-ok, create_with-ok}
use btclibwallet.Loader.Failed.{open_existing_wallet-failed, create_with-failed}

module _ (H : Host) where
  open H use {
    World, Wallet, Db, Callback, run, open_db, open_wallet, mkdir_all, create_db, stat_db, close_db,
    remove_db,
  }

  -- The operations on a loader, whatever they return.
  pub data Step : Loader H × World → Loader H × World → Type 0 where
    by_open :
        (l : Loader H) (s : World)
        → Step (l, s) ((open_existing_wallet H l s).1, (open_existing_wallet H l s).2)
    by_create :
        (not_dir : Kind) (create : Db → World → Option Kind × World) (l : Loader H) (s : World)
        → Step (l, s) ((create_with H not_dir create l s).1, (create_with H not_dir create l s).2)
    by_callback : (c : Callback) (l : Loader H) (s : World) → Step (l, s) (run_after_load H l c s)
    by_unload :
        (l : Loader H) (s : World) (r : Option Kind × Loader H × World)
        → unload_wallet H l s ≡ some r
        → Step (l, s) (r.1, r.2)

  pub data Steps : Loader H × World → Loader H × World → Type 0 where
    done : {a : Loader H × World} → Steps a a
    then_step : {a b c : Loader H × World} → Step a b → Steps b c → Steps a c

  by_open-IsPaired :
      (l : Loader H) (s : World) → IsPaired H l → IsPaired H (open_existing_wallet H l s).1
  by_open-IsPaired l s p =
      let l' : Loader H = (open_existing_wallet H l s).1 in
      let s' : World = (open_existing_wallet H l s).2 in
      elim (Result-cases (open_existing_wallet H l s).0) [
        | inl (w, e) ↦
            let (a, b, c, db, d) =
              open_existing_wallet-ok H l l' w s s' (ap (λ r. (r, l', s')) e) in
            inr (w, db, b, d)
        | inr (k, e) ↦
            subst (IsPaired H)
              (sym (open_existing_wallet-failed H l l' k s s' (ap (λ r. (r, l', s')) e)).0) p
      ]

  by_create-IsPaired :
      (not_dir : Kind) (create : Db → World → Option Kind × World) (l : Loader H) (s : World)
      → IsPaired H l
      → IsPaired H (create_with H not_dir create l s).1
  by_create-IsPaired not_dir create l s p =
      let l' : Loader H = (create_with H not_dir create l s).1 in
      let s' : World = (create_with H not_dir create l s).2 in
      elim (Result-cases (create_with H not_dir create l s).0) [
        | inl (w, e) ↦
            let (a, b, c, db, d) =
              create_with-ok H not_dir create l l' w s s' (ap (λ r. (r, l', s')) e) in
            inr (w, db, b, d)
        | inr (k, e) ↦
            subst (IsPaired H)
              (sym (create_with-failed H not_dir create l l' k s s' (ap (λ r. (r, l', s')) e)).0) p
      ]

  Step-IsPaired : (a b : Loader H × World) → Step a b → IsPaired H a.0 → IsPaired H b.0
  unfolding run_after_load unload_wallet
  Step-IsPaired a b (by_open l s) p = by_open-IsPaired l s p
  Step-IsPaired a b (by_create n c l s) p = by_create-IsPaired n c l s p
  Step-IsPaired a b (by_callback c l s) (inl (e, d)) = inl (ground (arith, e), ground (arith, e, d))
  Step-IsPaired a b (by_callback c l s) (inr (w, db, e, d)) =
      inr (w, db, ground (arith, e), ground (arith, e, d))
  Step-IsPaired a b (by_unload l s r h) (inl (e, d)) =
      inl (ground (arith, e, d), ground (arith, e, d))
  Step-IsPaired a b (by_unload l s r h) (inr (w, db, e, d)) =
      elim (Option-cases (close_db db s).0) [
        | inl c ↦ inl (ground (arith, e, d, c), ground (arith, e, d, c))
        | inr (k, c) ↦ inr (w, db, ground (arith, e, d, c), ground (arith, e, d, c))
      ]

  unload_wallet-total :
      (l : Loader H) (s : World)
      → IsPaired H l
      → (r : Option Kind × Loader H × World) × (unload_wallet H l s ≡ some r)
  unfolding unload_wallet
  unload_wallet-total l s (inl (e, d)) = ((some invalid, l, s), ground (arith, e))
  unload_wallet-total l s (inr (w, db, e, d)) = elim (Option-cases (close_db db s).0) [
    | inl c ↦
        ((none, record l { wallet = none; db = none }, (close_db db s).1), ground (arith, e, d, c))
    | inr (k, c) ↦ ((some k, l, (close_db db s).1), ground (arith, e, d, c))
  ]

  IsPaired-Steps : (a b : Loader H × World) → Steps a b → IsPaired H a.0 → IsPaired H b.0
  IsPaired-Steps a b done p = p
  IsPaired-Steps a c (then_step {b = b} h hs) p = IsPaired-Steps b c hs (Step-IsPaired a b h p)

  -- After any sequence of operations, failed ones included, on a loader that began with no wallet
  -- and no database, the loader holds both or neither, and `UnloadWallet` does not panic.
  pub Steps-IsPaired :
      (a b : Loader H × World)
      → Steps a b
      → a.0.wallet ≡ none
      → a.0.db ≡ none
      → IsPaired H b.0
        × ((s : World) → (r : Option Kind × Loader H × World) × (unload_wallet H b.0 s ≡ some r))
  Steps-IsPaired a b h w d =
      let p : IsPaired H b.0 = IsPaired-Steps a b h (inl (w, d)) in
      (p, λ s. unload_wallet-total b.0 s p)
