-- ===== src/Spv/Counted.antt =====
-- spv/sync.go, `handleBlockAnnouncements`: the locators' generation counts the new tips.
use btclibwallet.Prelude.{
  Bool, ◌+◌, ◌≡◌, ◌⊎◌, inl, inr, refl, Option, none, some, List, [], ◌∷◌, Option-cases, arith,
  length, length-append, ◌∙◌, ap,
}
use btclibwallet.Errors.{Error}
use btclibwallet.Spv.Announced.{
  WalletChain, tip_changed, Chains, announce, announce_all, handle_block_announcements,
}
use btclibwallet.Spv.Switches.{announce-IsAnnounced}

module _ (Forest Node : Type 0) (add_block_node : Forest → Node → Forest × Bool) where
  -- How two states differ: as many generations of locators as notifications of a new tip, and the
  -- locators are dropped if there was one.
  abbrev pub IsCounted : Chains Forest Node → Chains Forest Node → Type 0
  IsCounted s t =
      (t.locator_generation + length s.sent ≡ s.locator_generation + length t.sent)
      × ((t.current_locators ≡ [])
          ⊎ ((t.current_locators ≡ s.current_locators) × (t.sent ≡ s.sent)))

  announce-IsCounted :
      (w : WalletChain Forest Node) (announced : List Node) (s : Chains Forest Node)
      → IsCounted s (announce Forest Node add_block_node w announced s).0
  announce-IsCounted w announced s =
      elim (announce-IsAnnounced Forest Node add_block_node w announced s) [
        | inl (r, (a, b, c)) ↦ (ground (arith, a, c), inr (b, a))
        | inr (l, inl (y, (a, b, c))) ↦ (ground (arith, a, c), inr (b, a))
        | inr (l, inr (before, last, m, rest, prev, txs, y, v, k, u, n, q, c, g)) ↦
            let q' = ap length q ∙ length-append s.sent (tip_changed last (length prev) txs ∷ []) in
            (omega (arith, g, q'), inl c)
      ]

  IsCounted-trans : (s t u : Chains Forest Node) → IsCounted s t → IsCounted t u → IsCounted s u
  IsCounted-trans s t u a b = (
    omega (arith, a.0, b.0),
    elim b.1 [
      | inl e ↦ inl e
      | inr (e, f) ↦ elim a.1 [ inl g ↦ inl (e ∙ g) | inr (g, h) ↦ inr (e ∙ g, f ∙ h) ]
    ],
  )

  announce_all-IsCounted :
      (ws : List (WalletChain Forest Node)) (announced : List Node) (s : Chains Forest Node)
      → IsCounted s (announce_all Forest Node add_block_node ws announced s).0
  unfolding announce_all
  announce_all-IsCounted [] announced s = (refl, inr (refl, refl))
  announce_all-IsCounted (w ∷ ws) announced s =
      let one = announce-IsCounted w announced s in
      elim (Option-cases (announce Forest Node add_block_node w announced s).1) [
        | inr (e, x) ↦ rw (announce_all, x) one
        | inl x ↦
            rw (announce_all, x)
              (IsCounted-trans s (announce Forest Node add_block_node w announced s).0
                (announce_all Forest Node add_block_node ws announced
                  (announce Forest Node add_block_node w announced s).0).0
                one
                (announce_all-IsCounted ws announced
                  (announce Forest Node add_block_node w announced s).0))
      ]

  -- However announcements are handled, the generation of the locators grows by the number of new
  -- tips that are notified, and the locators are dropped if there was one.
  pub handle_block_announcements-IsCounted :
      (ws : List (WalletChain Forest Node)) (cfilters : Option Error) (announced : List Node)
      (s : Chains Forest Node)
      → IsCounted s
          (handle_block_announcements Forest Node add_block_node ws cfilters announced s).0
  unfolding handle_block_announcements
  handle_block_announcements-IsCounted ws cfilters [] s = (refl, inr (refl, refl))
  handle_block_announcements-IsCounted ws (some e) (n ∷ ns) s = (refl, inr (refl, refl))
  handle_block_announcements-IsCounted ws none (n ∷ ns) s = announce_all-IsCounted ws (n ∷ ns) s
