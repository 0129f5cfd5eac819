-- ===== src/Sync/Blocks.antt =====
-- The best and the lowest block over the opened wallets.
use btclibwallet.Prelude.{
  ◌≡◌, refl, true, Option, none, some, List, [], ◌∷◌, arith, ◌⊎◌, inl, inr, All, Elem, here, there,
  Bool-cases, ◌&&◌, ◌||◌,
}
use btclibwallet.Prelude.Int.{ℤ, pos, negsuc, ◌≤ℤ◌, ltb_ℤ, eqb_ℤ}
use btclibwallet.Sync.{
  MultiWallet, Wallet, best_from, lowest_from, get_best_block, get_lowest_block,
}

-- Heights are not negative, as those of main chain tips.
abbrev pub HeightsFine : List Wallet → Type 0
HeightsFine ws = All (λ (w : Wallet). pos 0 ≤ℤ w.best_block) ws

-- An opened wallet with this best block.
abbrev pub Attained : ℤ × ℤ → List Wallet → Type 0
Attained (h, t) ws =
    (w : Wallet) × Elem w ws × (w.opened ≡ true) × (w.best_block ≡ h) × (w.best_block_timestamp ≡ t)

abbrev AtMost : ℤ → List Wallet → Type 0
AtMost h ws = All (λ (w : Wallet). w.opened ≡ true → w.best_block ≤ℤ h) ws

abbrev AtLeast : ℤ → List Wallet → Type 0
AtLeast h ws = All (λ (w : Wallet). w.opened ≡ true → h ≤ℤ w.best_block) ws

best_from-AtMost :
    (ws : List Wallet) (best : ℤ) (info : Option (ℤ × ℤ)) (h t : ℤ)
    → HeightsFine ws
    → negsuc 0 ≤ℤ best
    → ((info ≡ none) × (best ≡ negsuc 0)) ⊎ ((u : ℤ) × (info ≡ some (best, u)))
    → best_from best info ws ≡ some (h, t)
    → (best ≤ℤ h) × AtMost h ws × ((info ≡ some (h, t)) ⊎ Attained (h, t) ws)
unfolding best_from
best_from-AtMost [] best info h t f b (inl (n, e)) r = absurd (ground (arith, n, r))
best_from-AtMost [] best info h t f b (inr (u, e)) r = (ground (arith, e, r), tt, inl r)
best_from-AtMost (w ∷ ws) best info h t (f, fs) b i r =
    elim (Bool-cases (w.opened && (ltb_ℤ best w.best_block || eqb_ℤ best (negsuc 0)))) [
      | inl y ↦
          let (lo, all, at) =
            best_from-AtMost ws w.best_block (some (w.best_block, w.best_block_timestamp)) h t fs
              (ground (arith, f)) (inr (w.best_block_timestamp, refl)) (ground (arith, y, r)) in
          (
            ground (arith, y, lo, f, b),
            (λ o. lo, all),
            inr (elim at [
              | inl e ↦ (w, here, ground (arith, y), ground (arith, e), ground (arith, e))
              | inr (v, m, a, b', c) ↦ (v, there m, a, b', c)
            ]),
          )
      | inr y ↦
          let (lo, all, at) = best_from-AtMost ws best info h t fs b i (ground (arith, y, r)) in
          (
            lo,
            (λ o. ground (arith, y, o, lo), all),
            elim at [ inl e ↦ inl e | inr (v, m, a, b', c) ↦ inr (v, there m, a, b', c) ],
          )
    ]

lowest_from-AtLeast :
    (ws : List Wallet) (lowest : ℤ) (info : Option (ℤ × ℤ)) (h t : ℤ)
    → HeightsFine ws
    → ((info ≡ none) × (lowest ≡ negsuc 0))
      ⊎ ((u : ℤ) × (info ≡ some (lowest, u)) × (pos 0 ≤ℤ lowest))
    → lowest_from lowest info ws ≡ some (h, t)
    → ((lowest ≡ negsuc 0) ⊎ (h ≤ℤ lowest))
      × AtLeast h ws
      × ((info ≡ some (h, t)) ⊎ Attained (h, t) ws)
unfolding lowest_from
lowest_from-AtLeast [] lowest info h t f (inl (n, e)) r = absurd (ground (arith, n, r))
lowest_from-AtLeast [] lowest info h t f (inr (u, e, z)) r = (inr (ground (arith, e, r)), tt, inl r)
lowest_from-AtLeast (w ∷ ws) lowest info h t (f, fs) i r =
    elim (Bool-cases (w.opened && (ltb_ℤ w.best_block lowest || eqb_ℤ lowest (negsuc 0)))) [
      | inl y ↦
          let (lo, all, at) =
            lowest_from-AtLeast ws w.best_block (some (w.best_block, w.best_block_timestamp)) h t fs
              (inr (w.best_block_timestamp, refl, f)) (ground (arith, y, r)) in
          let below : h ≤ℤ w.best_block = ground (arith, lo, f) in
          (
            ground (arith, y, below),
            (λ o. below, all),
            inr (elim at [
              | inl e ↦ (w, here, ground (arith, y), ground (arith, e), ground (arith, e))
              | inr (v, m, a, b', c) ↦ (v, there m, a, b', c)
            ]),
          )
      | inr y ↦
          let (lo, all, at) = lowest_from-AtLeast ws lowest info h t fs i (ground (arith, y, r)) in
          (
            lo,
            (λ o. ground (arith, y, o, lo), all),
            elim at [ inl e ↦ inl e | inr (v, m, a, b', c) ↦ inr (v, there m, a, b', c) ],
          )
    ]

attained :
    (o : Option (ℤ × ℤ)) (p : ℤ × ℤ) (ws : List Wallet)
    → o ≡ none
    → (o ≡ some p) ⊎ Attained p ws
    → Attained p ws
attained o p ws n (inl e) = absurd (ground (arith, n, e))
attained o p ws n (inr a) = a

-- Where the heights are not negative, the best block is that of an opened wallet and no opened
-- wallet is higher; the lowest block is that of an opened wallet and no opened wallet is lower.
pub best_and_lowest :
    (mw : MultiWallet) (high low : ℤ × ℤ)
    → HeightsFine mw.wallets
    → get_best_block mw ≡ some high
    → get_lowest_block mw ≡ some low
    → Attained high mw.wallets
      × All (λ (w : Wallet). w.opened ≡ true → w.best_block ≤ℤ high.0) mw.wallets
      × Attained low mw.wallets
      × All (λ (w : Wallet). w.opened ≡ true → low.0 ≤ℤ w.best_block) mw.wallets
best_and_lowest mw (h, t) (l, u) f b c =
    let (lo, most, at) =
      best_from-AtMost mw.wallets (negsuc 0) none h t f (ground arith) (inl (refl, refl)) b in
    let (lo', least, at') =
      lowest_from-AtLeast mw.wallets (negsuc 0) none l u f (inl (refl, refl)) c in
    (attained none (h, t) mw.wallets refl at, most, attained none (l, u) mw.wallets refl at', least)
