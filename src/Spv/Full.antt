-- ===== src/Spv/Full.antt =====
-- spv/sync.go: the scan of every block, and that a walk of `scanChain` leaves what it leaves.
use btclibwallet.Prelude.{
  append_assoc, append_nil, ◌≡◌, ◌∙◌, ◌⊎◌, inl, inr, refl, sym, ap, subst, none, some, List, [],
  ◌∷◌, ◌++◌, true, false, List-cases, arith, All, Elem,
}
use btclibwallet.Spv.{Hash, OutPoint, Tx, Block}
use btclibwallet.Spv.Rescan.{Watch, IsWatch, Check, rescan_block}
use btclibwallet.Spv.Matches.{spent_by, paid_by, IsQuiet, rescan_block-quiet}
use btclibwallet.Spv.Filters.{IsGrown, rescan_block-IsGrown}
use btclibwallet.Spv.Scan.{
  node_matches, Blocks, BlockNode, Found, Slot, Walk, finished, again, walk,
}
use btclibwallet.Spv.Fetch.{IsNode, IsNear, IsSettled, nodes}

-- The matches of the blocks that have any.
unfoldable pub keep : Hash × List Tx → Found
keep (h, []) = []
keep (h, tx ∷ txs) = (h, tx ∷ txs) ∷ []

unfoldable pub relevant : Found → Found
relevant [] = []
relevant (p ∷ ps) = keep p ++ relevant ps

relevant-append :
    (ps : Found) (p : Hash × List Tx) → relevant (ps ++ p ∷ []) ≡ relevant ps ++ keep p
unfolding relevant
relevant-append [] p = append_nil (keep p)
relevant-append (q ∷ qs) p =
    ap (λ t. keep q ++ t) (relevant-append qs p)
    ∙ sym (append_assoc (keep q) (relevant qs) (keep p))

-- The reference: every block is scanned, whatever its filter says.
unfoldable pub full_scan :
    (W : Watch) (B : Blocks W.Entry)
    → (Hash → Block)
    → List (BlockNode B.CFilter)
    → W.Filter
    → List W.Entry
    → Found
    → W.Filter × List W.Entry × Found
full_scan W B block_of [] f wd found = (f, wd, found)
full_scan W B block_of (n ∷ ns) f wd found =
    let c = rescan_block W (block_of n.hash) f wd in
    full_scan W B block_of ns c.filter c.filter_data (found ++ keep (n.hash, c.matches))

module _ (W : Watch) (B : Blocks W.Entry) (block_of : Hash → Block) (w : IsWatch W) where
  open W use {Filter, Address, Entry, exists_address, exists_unspent, out_point_entry, script_entry}
  open B use {CFilter}

  -- A walk has what the full scan has, and leaves slots that the added data covers.
  abbrev pub IsFaithful : Filter × List Entry × Found → Walk W B → Type 0
  IsFaithful full (finished f wd found) = full ≡ (f, wd, relevant found)
  IsFaithful full (again ss f wd d found) =
      (full ≡ full_scan W B block_of (nodes W B block_of ss) f wd (relevant found))
      × All (IsNode W B block_of (node_matches W B)) (nodes W B block_of ss)
      × All (IsNear W B block_of f d) ss

  covers_spent :
      (f : Filter) (s : Check Filter Entry) (os : List OutPoint)
      → IsGrown W f (s, false)
      → All (λ o. exists_unspent f o ≡ false) os
      → All (λ o. exists_unspent s.filter o ≡ true → Elem (out_point_entry o) s.fadded) os
  covers_spent f s [] g h = tt
  covers_spent f s (o ∷ os) g h = (
    λ y. elim (g.new_added o y) [ inl old ↦ absurd (ground (arith, old, h.0)) | inr e ↦ e ],
    covers_spent f s os g h.1,
  )

  covers_paid :
      (f : Filter) (s : Check Filter Entry) (addrs : List Address)
      → IsGrown W f (s, false)
      → All (λ a. exists_address f a ≡ false) addrs
      → All
          (λ a.
            exists_address s.filter a ≡ true
            → (e : Entry) × (script_entry a ≡ some e) × Elem e s.fadded)
          addrs
  covers_paid f s [] g h = tt
  covers_paid f s (a ∷ addrs) g h =
      (λ y. absurd (ground (arith, y, g.same_addresses a, h.0)), covers_paid f s addrs g h.1)

  pub IsNear-slots :
      (f : Filter) (s : Check Filter Entry) (ss : List (Slot W B))
      → IsGrown W f (s, false)
      → All (IsSettled W B block_of f) ss
      → All (IsNear W B block_of s.filter s.fadded) ss
  IsNear-slots f s [] g h = tt
  IsNear-slots f s ((n, some b) ∷ ss) g h = (h.0, IsNear-slots f s ss g h.1)
  IsNear-slots f s ((n, none) ∷ ss) g h = (
    (
      covers_spent f s (spent_by W (block_of n.hash)) g h.0.0,
      covers_paid f s (paid_by W (block_of n.hash)) g h.0.1,
    ),
    IsNear-slots f s ss g h.1,
  )

  IsFaithful-of :
      (full full' : Filter × List Entry × Found) (v v' : Walk W B)
      → full ≡ full'
      → v ≡ v'
      → IsFaithful full' v'
      → IsFaithful full v
  IsFaithful-of full full' v v' a b h =
      subst (λ x. IsFaithful x v) (sym a) (subst (λ x. IsFaithful full' x) (sym b) h)

  pub full_scan-quiet :
      (n : BlockNode CFilter) (ns : List (BlockNode CFilter)) (f : Filter) (wd : List Entry)
      (found : Found)
      → IsQuiet W f (block_of n.hash)
      → full_scan W B block_of (n ∷ ns) f wd found ≡ full_scan W B block_of ns f wd found
  unfolding full_scan keep
  full_scan-quiet n ns f wd found q =
      ap
        (λ (c : Check Filter Entry).
          full_scan W B block_of ns c.filter c.filter_data (found ++ keep (n.hash, c.matches)))
        (rescan_block-quiet W (block_of n.hash) f wd q)
      ∙ ap (full_scan W B block_of ns f wd) (append_nil found)

  full_scan-block :
      (n : BlockNode CFilter) (ns : List (BlockNode CFilter)) (b : Block) (f : Filter)
      (wd : List Entry) (found : Found)
      → b ≡ block_of n.hash
      → full_scan W B block_of (n ∷ ns) f wd (relevant found)
        ≡ full_scan W B block_of ns
            (rescan_block W b f wd).filter
            (rescan_block W b f wd).filter_data
            (relevant (found ++ (n.hash, (rescan_block W b f wd).matches) ∷ []))
  unfolding full_scan
  full_scan-block n ns b f wd found e =
      rw (relevant-append found (n.hash, (rescan_block W b f wd).matches), e) refl

  walk-block :
      (n : BlockNode CFilter) (b : Block) (ss : List (Slot W B)) (f : Filter) (wd : List Entry)
      (found : Found)
      → (((rescan_block W b f wd).fadded ≡ [])
          × (walk W B ((n, some b) ∷ ss) f wd found
              ≡ walk W B ss
                  (rescan_block W b f wd).filter
                  (rescan_block W b f wd).filter_data
                  (found ++ (n.hash, (rescan_block W b f wd).matches) ∷ [])))
        ⊎ (walk W B ((n, some b) ∷ ss) f wd found
            ≡ again ss
                (rescan_block W b f wd).filter
                (rescan_block W b f wd).filter_data
                (rescan_block W b f wd).fadded
                (found ++ (n.hash, (rescan_block W b f wd).matches) ∷ []))
  unfolding walk
  walk-block n b ss f wd found = elim (List-cases (rescan_block W b f wd).fadded) [
    | inl e ↦ inl (e, ground (arith, e))
    | inr (x, xs, e) ↦ inr (ground (arith, e))
  ]

  pub walk-IsFaithful :
      (ss : List (Slot W B)) (f : Filter) (wd : List Entry) (found : Found)
      → All (IsNode W B block_of (node_matches W B)) (nodes W B block_of ss)
      → All (IsSettled W B block_of f) ss
      → IsFaithful
          (full_scan W B block_of (nodes W B block_of ss) f wd (relevant found))
          (walk W B ss f wd found)
  unfolding walk full_scan
  walk-IsFaithful [] f wd found h settled = refl
  walk-IsFaithful ((n, none) ∷ ss) f wd found h settled =
      IsFaithful-of _ _ _ _
        (full_scan-quiet n (nodes W B block_of ss) f wd (relevant found) settled.0) refl
        (walk-IsFaithful ss f wd found h.1 settled.1)
  walk-IsFaithful ((n, some b) ∷ ss) f wd found h settled =
      let c = rescan_block W b f wd in
      let g = rescan_block-IsGrown W w b f wd in
      let full = full_scan-block n (nodes W B block_of ss) b f wd found settled.0 in
      elim (walk-block n b ss f wd found) [
        | inl (e, v) ↦ IsFaithful-of _ _ _ _ full v (
            walk-IsFaithful ss c.filter c.filter_data (found ++ (n.hash, c.matches) ∷ []) h.1
              (subst (λ x. All (IsSettled W B block_of x) ss) (sym (g.none_added e)) settled.1))
        | inr v ↦ IsFaithful-of _ _ _ _ full v (refl, h.1, IsNear-slots f c ss g settled.1)
      ]
