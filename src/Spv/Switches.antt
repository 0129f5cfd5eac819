-- ===== src/Spv/Switches.antt =====
-- spv/sync.go: when `handleBlockAnnouncements` notifies a new tip, and the locators.
use btclibwallet.Prelude.{
  ◌↔◌, Elem-nil, Elem-append, Elem-append_left, Elem-append_right, Elem-cases, err, sym, Bool, ◌++◌,
  subst, Elem, here, there, ◌+◌, ◌≡◌, ◌⊎◌, inl, inr, refl, Option, none, some, List, [], ◌∷◌, ok,
  Option-cases, Result-cases, length, ◌∙◌, ap,
}
use btclibwallet.Errors.{Error}
use btclibwallet.Spv.{Hash, Tx}
use btclibwallet.Spv.Announced.{
  Matching, WalletChain, tip_changed, Chains, flatten, tip, add_new, matching_txs, switched, turn,
  look_up_new, announce,
}

module _ (Forest Node : Type 0) (add_block_node : Forest → Node → Forest × Bool) where
  -- Where a turn without a switch got its error from; f is the forest with the announced blocks.
  pub data IsRefused (w : WalletChain Forest Node) (announced : List Node) (forest f : Forest)
      : Error → Type 0 where
    from_lookup :
        (e : Error)
        → (add_new Forest Node add_block_node w announced forest).2 ≡ some e
        → IsRefused w announced forest f e
    from_best : (e : Error) → w.evaluate_best_chain f ≡ err e → IsRefused w announced forest f e
    from_headers :
        (e : Error) (c : List Node)
        → w.evaluate_best_chain f ≡ ok c
        → w.validate_header_chain c ≡ some e
        → IsRefused w announced forest f e
    from_point : (e : Error) → w.rescan_point ≡ err e → IsRefused w announced forest f e
    from_scan :
        (e : Error) (c : List Node)
        → w.evaluate_best_chain f ≡ ok c
        → w.scan_chain c ≡ err e
        → IsRefused w announced forest f e
    from_switch :
        (e : Error) (c : List Node) (m : Matching)
        → w.evaluate_best_chain f ≡ ok c
        → w.chain_switch f c m ≡ err e
        → IsRefused w announced forest f e

  -- The transactions that a switch is made with: those of the scan, where there is nothing to rescan.
  abbrev pub IsMatching : WalletChain Forest Node → List Node → Matching → Type 0
  IsMatching w c m =
      ((w.rescan_point ≡ ok none) × (w.scan_chain c ≡ ok m))
      ⊎ ((h : Hash) × (w.rescan_point ≡ ok (some h)) × (m ≡ []))

  matching_txs-cases :
      (w : WalletChain Forest Node) (c : List Node)
      → ((m : Matching) × (matching_txs Forest Node add_block_node w c ≡ ok m) × IsMatching w c m)
        ⊎ ((e : Error) × (matching_txs Forest Node add_block_node w c ≡ err e)
            × ((w.rescan_point ≡ err e) ⊎ (w.scan_chain c ≡ err e)))
  unfolding matching_txs
  matching_txs-cases w c = elim (Result-cases w.rescan_point) [
    | inr (e, r) ↦ inr (e, rw (matching_txs, r) refl, inl r)
    | inl (some h, r) ↦ inl ([], rw (matching_txs, r) refl, inr (h, r, refl))
    | inl (none, r) ↦ elim (Result-cases (w.scan_chain c)) [
      | inr (e, x) ↦ inr (e, rw (matching_txs, r, x) refl, inr x)
      | inl (m, x) ↦ inl (m, rw (matching_txs, r, x) refl, inl (r, x))
    ]
  ]

  tip-last : (n : Node) (ns : List Node) → (before : List Node) × (n ∷ ns ≡ before ++ tip n ns ∷ [])
  unfolding tip
  tip-last n [] = ([], refl)
  tip-last n (m ∷ ns) = let r = tip-last m ns in (n ∷ r.0, ap (λ l. n ∷ l) r.1)

  abbrev pub IsUnchanged : Chains Forest Node → Chains Forest Node → Type 0
  IsUnchanged s t =
      (t.sent ≡ s.sent)
      × (t.current_locators ≡ s.current_locators)
      × (t.locator_generation ≡ s.locator_generation)

  -- The transactions are those of the matching, of each of its blocks.
  abbrev pub IsUnion : Matching → List Tx → Type 0
  IsUnion m txs =
      (tx : Tx) → Elem tx txs ↔ ((h : Hash) × (found : List Tx) × Elem (h, found) m × Elem tx found)

  flatten-IsUnion : (m : Matching) → IsUnion m (flatten m)
  unfolding flatten
  flatten-IsUnion [] tx = (λ e. absurd (Elem-nil e), λ (h, found, i, e). absurd (Elem-nil i))
  flatten-IsUnion ((h, found) ∷ m) tx = (
    λ e. elim (Elem-append found e) [
      | inl i ↦ (h, found, here, i)
      | inr i ↦ let (g, fs, j, k) = (flatten-IsUnion m tx).0 i in (g, fs, there j, k)
    ],
    λ (g, fs, j, k). elim (Elem-cases j) [
      | inl q ↦ Elem-append_left (flatten m) (subst (λ (x : Hash × List Tx). Elem tx x.1) (sym q) k)
      | inr i ↦ Elem-append_right found ((flatten-IsUnion m tx).1 (g, fs, i, k))
    ],
  )

  -- The switch from the forest f to the best chain, and what is notified of it.
  abbrev pub IsSwitch :
      WalletChain Forest Node → Forest → Chains Forest Node → Chains Forest Node → Type 0
  IsSwitch w f s t =
      (before : List Node) × (last : Node) × (m : Matching) × (rest : Forest) × (prev : List Node)
      × (txs : List Tx) × (w.evaluate_best_chain f ≡ ok (before ++ last ∷ []))
      × (w.validate_header_chain (before ++ last ∷ []) ≡ none)
      × IsMatching w (before ++ last ∷ []) m
      × (w.chain_switch f (before ++ last ∷ []) m ≡ ok (rest, prev))
      × IsUnion m txs
      × (t.sent ≡ s.sent ++ tip_changed last (length prev) txs ∷ [])
      × (t.current_locators ≡ [])
      × (t.locator_generation ≡ s.locator_generation + 1)

  abbrev pub IsTurn :
      WalletChain Forest Node
      → Forest
      → List Node
      → Chains Forest Node
      → Chains Forest Node × Option Error
      → Type 0
  IsTurn w f announced s r =
      (((e : Error) × (r.1 ≡ some e) × IsRefused w announced s.forest f e) × IsUnchanged s r.0)
      ⊎ ((r.1 ≡ none)
          × (((w.evaluate_best_chain f ≡ ok []) × IsUnchanged s r.0) ⊎ IsSwitch w f s r.0))

  IsSwitch-of :
      (w : WalletChain Forest Node) (f : Forest) (s t : Chains Forest Node) (n : Node)
      (ns : List Node) (m : Matching) (p : Forest × List Node)
      → w.evaluate_best_chain f ≡ ok (n ∷ ns)
      → w.validate_header_chain (n ∷ ns) ≡ none
      → IsMatching w (n ∷ ns) m
      → w.chain_switch f (n ∷ ns) m ≡ ok p
      → t ≡ switched Forest Node add_block_node (record s { forest = f }) n ns m p
      → IsSwitch w f s t
  unfolding switched
  IsSwitch-of w f s t n ns m (rest, prev) y v k u e =
      let l = tip-last n ns in
      (
        l.0,
        tip n ns,
        m,
        rest,
        prev,
        flatten m,
        subst (λ c. w.evaluate_best_chain f ≡ ok c) l.1 y,
        subst (λ c. w.validate_header_chain c ≡ none) l.1 v,
        subst (λ c. IsMatching w c m) l.1 k,
        subst (λ c. w.chain_switch f c m ≡ ok (rest, prev)) l.1 u,
        flatten-IsUnion m,
        ap (λ (x : Chains Forest Node). x.sent) e,
        ap (λ (x : Chains Forest Node). x.current_locators) e,
        ap (λ (x : Chains Forest Node). x.locator_generation) e,
      )

  IsTurn-of :
      (w : WalletChain Forest Node) (f : Forest) (announced : List Node) (s : Chains Forest Node)
      (r r' : Chains Forest Node × Option Error)
      → r ≡ r'
      → IsTurn w f announced s r'
      → IsTurn w f announced s r
  IsTurn-of w f announced s r r' e h = subst (IsTurn w f announced s) (sym e) h

  abbrev kept : Forest → Chains Forest Node → Option Error → Chains Forest Node × Option Error
  kept f s e = (record s { forest = f }, e)

  kept-IsTurn :
      (w : WalletChain Forest Node) (f : Forest) (announced : List Node) (s : Chains Forest Node)
      (e : Error)
      → IsRefused w announced s.forest f e
      → IsTurn w f announced s (kept f s (some e))
  kept-IsTurn w f announced s e r = inl ((e, refl, r), (refl, refl, refl))

  turn-IsTurn :
      (w : WalletChain Forest Node) (announced : List Node) (s : Chains Forest Node)
      → IsTurn w
          (add_new Forest Node add_block_node w announced s.forest).0
          announced
          s
          (turn Forest Node add_block_node w announced s)
  unfolding turn
  turn-IsTurn w announced s =
      let a = add_new Forest Node add_block_node w announced s.forest in
      let from = IsTurn-of w a.0 announced s (turn Forest Node add_block_node w announced s) in
      let refused = kept-IsTurn w a.0 announced s in
      elim (Option-cases a.2) [
        | inr (e, x) ↦ from (kept a.0 s (some e)) (rw (turn, x) refl) (refused e (from_lookup e x))
        | inl x ↦ elim (Result-cases (w.evaluate_best_chain a.0)) [
          | inr (e, y) ↦
              from (kept a.0 s (some e)) (rw (turn, x, y) refl) (refused e (from_best e y))
          | inl ([], y) ↦
              from (kept a.0 s none) (rw (turn, x, y) refl)
                (inr (refl, inl (y, (refl, refl, refl))))
          | inl (n ∷ ns, y) ↦ elim (Option-cases (w.validate_header_chain (n ∷ ns))) [
            | inr (e, v) ↦
                from (kept a.0 s (some e)) (rw (turn, x, y, v) refl)
                  (refused e (from_headers e (n ∷ ns) y v))
            | inl v ↦ elim (matching_txs-cases w (n ∷ ns)) [
              | inr (e, t, inl k) ↦
                  from (kept a.0 s (some e)) (rw (turn, x, y, v, t) refl)
                    (refused e (from_point e k))
              | inr (e, t, inr k) ↦
                  from (kept a.0 s (some e)) (rw (turn, x, y, v, t) refl)
                    (refused e (from_scan e (n ∷ ns) y k))
              | inl (m, t, k) ↦ elim (Result-cases (w.chain_switch a.0 (n ∷ ns) m)) [
                | inr (e, u) ↦
                    from (kept a.0 s (some e)) (rw (turn, x, y, v, t, u) refl)
                      (refused e (from_switch e (n ∷ ns) m y u))
                | inl (p, u) ↦
                    from
                      (
                        switched Forest Node add_block_node (record s { forest = a.0 }) n ns m p,
                        none,
                      )
                      (rw (turn, x, y, v, t, u) refl)
                      (inr (refl, inr (IsSwitch-of w a.0 s _ n ns m p y v k u refl)))
              ]
            ]
          ]
        ]
      ]

  -- What is looked up of the new blocks at the end of a turn gave the error.
  abbrev pub IsLookedUp : WalletChain Forest Node → List Node → Option Error → Type 0
  IsLookedUp w new e =
      (e ≡ none)
      ⊎ ((x : Error) × (n : Node) × (e ≡ some x)
          × Elem n new
          × (w.block_in_main_chain_after n ≡ err x))

  look_up_new-IsLookedUp :
      (w : WalletChain Forest Node) (new : List Node)
      → IsLookedUp w new (look_up_new Forest Node add_block_node w new)
  unfolding look_up_new
  look_up_new-IsLookedUp w [] = inl refl
  look_up_new-IsLookedUp w (n ∷ ns) = elim (Result-cases (w.block_in_main_chain_after n)) [
    | inr (e, x) ↦ inr (e, n, rw (look_up_new, x) refl, here, x)
    | inl (b, x) ↦
        let same : look_up_new Forest Node add_block_node w (n ∷ ns)
            ≡ look_up_new Forest Node add_block_node w ns =
          rw (look_up_new, x) refl in
        elim (look_up_new-IsLookedUp w ns) [
          | inl y ↦ inl (same ∙ y)
          | inr (e, m, y, i, z) ↦ inr (e, m, same ∙ y, there i, z)
        ]
  ]

  -- A turn, and the look-up after it.
  abbrev pub IsAnnounced :
      WalletChain Forest Node
      → Forest × List Node × Option Error
      → List Node
      → Chains Forest Node
      → Chains Forest Node × Option Error
      → Type 0
  IsAnnounced w a announced s r =
      (((e : Error) × (r.1 ≡ some e) × IsRefused w announced s.forest a.0 e) × IsUnchanged s r.0)
      ⊎ (IsLookedUp w a.1 r.1
          × (((w.evaluate_best_chain a.0 ≡ ok []) × IsUnchanged s r.0) ⊎ IsSwitch w a.0 s r.0))

  -- A wallet's turn, after the announced blocks were put into the forest, goes one of three ways.
  -- It ends with an error that the look-up of the blocks, the choice of the best chain, its
  -- validation, the rescan point, the scan or the switch gave, or the best chain is empty: then
  -- neither the locators nor the notifications change. Or the best chain is valid and the wallet
  -- switched to it, with the transactions that the scan found, none where the wallet has something
  -- to rescan: then the locators are dropped, their generation is one more, and one notification
  -- is added, of the chain's last block, the number of blocks that the switch removed, and those
  -- transactions of all blocks. Without an error of the first kind, the error is that of looking up one of the
  -- new blocks again, or none.
  pub announce-IsAnnounced :
      (w : WalletChain Forest Node) (announced : List Node) (s : Chains Forest Node)
      → IsAnnounced w
          (add_new Forest Node add_block_node w announced s.forest)
          announced
          s
          (announce Forest Node add_block_node w announced s)
  unfolding announce
  announce-IsAnnounced w announced s = elim (turn-IsTurn w announced s) [
    | inl ((e, x, y), z) ↦ rw (announce, x) (inl ((e, refl, y), z))
    | inr (x, y) ↦ rw (announce, x) (inr (look_up_new-IsLookedUp w _, y))
  ]
