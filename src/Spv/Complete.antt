-- ===== src/Spv/Complete.antt =====
-- spv/sync.go: `scanChain` finds what a scan of every block would find.
use btclibwallet.Prelude.{
  ℕ, zero, suc, ◌<◌, ◌≡◌, ◌⊎◌, inl, inr, refl, sym, ap, subst, Option, some, List, [], ◌∷◌, map,
  Result, ok, err, Option-cases, arith, All, All-of_Elem, length,
}
use btclibwallet.Errors.{Error}
use btclibwallet.Spv.{Hash, Block}
use btclibwallet.Spv.Rescan.{Watch, IsWatch}
use btclibwallet.Spv.Scan.{
  node_matches, Blocks, BlockNode, Found, Slot, slots_of, Walk, finished, again, walk, filter_loop,
  scan_chain,
}
use btclibwallet.Spv.Matches.{spent_by, paid_by}
use btclibwallet.Spv.Loaded.{IsIndexed, Reached, Reached-IsIndexed}
use btclibwallet.Spv.Full.{relevant, full_scan, IsFaithful, walk-IsFaithful}
use btclibwallet.Spv.Terminates.{walk-length, slots_of-length, fetch_matches-length}
use btclibwallet.Spv.Fetch.{IsNode, IsCovered, IsNear, nodes, fetch_matches-cases}

module _ (W : Watch) (B : Blocks W.Entry) (block_of : Hash → Block) (w : IsWatch W) where
  open W use {Filter, Entry}
  open B use {CFilter}

  pub slots_of-nodes :
      (bmap : Hash → Option Block) (ns : List (BlockNode CFilter))
      → nodes W B block_of (slots_of W B bmap ns) ≡ ns
  unfolding slots_of
  slots_of-nodes bmap [] = refl
  slots_of-nodes bmap (n ∷ ns) = ap (λ t. n ∷ t) (slots_of-nodes bmap ns)

  pub slots_of-IsNear :
      (bmap : Hash → Option Block) (f : Filter) (wd : List Entry) (ns : List (BlockNode CFilter))
      → ((h : Hash) (b : Block) → bmap h ≡ some b → b ≡ block_of h)
      → All (λ n. IsCovered W B block_of f wd (block_of n.hash)) ns
      → All (IsNear W B block_of f wd) (slots_of W B bmap ns)
  unfolding slots_of
  slots_of-IsNear bmap f wd [] hb hc = tt
  slots_of-IsNear bmap f wd (n ∷ ns) hb hc = (
    elim (Option-cases (bmap n.hash)) [ inl e ↦ rw e hc.0 | inr (b, e) ↦ rw e (hb n.hash b e) ],
    slots_of-IsNear bmap f wd ns hb hc.1,
  )

  pub covered :
      (f : Filter) (wd : List Entry) (ns : List (BlockNode CFilter))
      → IsIndexed W (f, wd)
      → All (λ n. IsCovered W B block_of f wd (block_of n.hash)) ns
  covered f wd [] x = tt
  covered f wd (n ∷ ns) x = (
    (
      All-of_Elem _ (spent_by W (block_of n.hash)) (λ o i. x.unspent o),
      All-of_Elem _ (paid_by W (block_of n.hash)) (λ a i. x.address a),
    ),
    covered f wd ns x,
  )

  module _ (ctx_err : ℕ → Option Error) (blocks : List Hash → Result Error (List Block))
      (get : (hs : List Hash) (bs : List Block) → blocks hs ≡ ok bs → bs ≡ map block_of hs) where
    -- A scan has the matches, the filter and the data of the full scan, or the error of the peer or
    -- of the context.
    abbrev pub IsScanned :
        Filter × List Entry × Found → Option (Filter × List Entry × Result Error Found) → Type 0
    IsScanned full r =
        ((found : Found) × (r ≡ some (full.0, full.1, ok found)) × (relevant found ≡ full.2))
        ⊎ ((f : Filter) × (wd : List Entry) × (e : Error) × (r ≡ some (f, wd, err e))
            × (((hs : List Hash) × (blocks hs ≡ err e)) ⊎ ((k : ℕ) × (ctx_err k ≡ some e))))

    walked-IsScanned :
        (k : ℕ) (full : Filter × List Entry × Found) (v : Walk W B)
        → IsFaithful W B block_of w full v
        → ((ss : List (Slot W B)) (f : Filter) (wd d : List Entry) (found : Found)
            → v ≡ again ss f wd d found
            → All (IsNode W B block_of (node_matches W B)) (nodes W B block_of ss)
            → All (IsNear W B block_of f d) ss
            → IsScanned
                (full_scan W B block_of (nodes W B block_of ss) f wd (relevant found))
                (filter_loop W B ctx_err blocks k ss f wd d found))
        → IsScanned full (elim v [
          | finished f' wd' found' ↦ some (f', wd', ok found')
          | again ss' f' wd' d' found' ↦ filter_loop W B ctx_err blocks k ss' f' wd' d' found'
        ])
    walked-IsScanned k full (finished f wd found) h rec =
        inl (found, ground (arith, h), ground (arith, h))
    walked-IsScanned k full (again ss f wd d found) h rec =
        subst (λ x. IsScanned x (filter_loop W B ctx_err blocks k ss f wd d found)) (sym h.0)
          (rec ss f wd d found refl h.1 h.2)

    filter_loop-IsScanned :
        (k : ℕ) (ss : List (Slot W B)) (f : Filter) (wd d : List Entry) (found : Found)
        → length ss < k
        → All (IsNode W B block_of (node_matches W B)) (nodes W B block_of ss)
        → All (IsNear W B block_of f d) ss
        → IsScanned
            (full_scan W B block_of (nodes W B block_of ss) f wd (relevant found))
            (filter_loop W B ctx_err blocks k ss f wd d found)
    unfolding filter_loop full_scan
    filter_loop-IsScanned zero ss f wd d found l h near = absurd (omega (arith, l))
    filter_loop-IsScanned (suc k) [] f wd d found l h near = inl (found, refl, refl)
    filter_loop-IsScanned (suc k) (s ∷ ss) f wd d found l h near =
        elim (fetch_matches-cases W B block_of ctx_err blocks get f d (s ∷ ss) h near) [
          | inr (e, hs, r, b) ↦ inr (f, wd, e, rw (filter_loop, r) refl, inl (hs, b))
          | inl (slots, r, ns, settled) ↦ elim (Option-cases (ctx_err (length (s ∷ ss)))) [
            | inr (e, c) ↦ inr (f, wd, e, rw (filter_loop, r, c) refl, inr (length (s ∷ ss), c))
            | inl c ↦
                let full =
                  full_scan W B block_of (nodes W B block_of slots) f wd (relevant found) in
                let m = fetch_matches-length W B ctx_err blocks d (s ∷ ss) slots r in
                let v =
                  walked-IsScanned k full (walk W B slots f wd found)
                    (walk-IsFaithful W B block_of w slots f wd found
                      (subst (All (IsNode W B block_of (node_matches W B))) (sym ns) h) settled)
                    (λ ss' f' wd' d' found' a h' near'.
                      filter_loop-IsScanned k ss' f' wd' d' found'
                        (omega
                          (arith, l, m, walk-length W B slots f wd found ss' f' wd' d' found' a))
                        h' near') in
                subst
                  (λ x.
                    IsScanned (full_scan W B block_of x f wd (relevant found))
                      (filter_loop W B ctx_err blocks (suc k) (s ∷ ss) f wd d found))
                  ns (rw (filter_loop, r, c) v)
          ]
        ]

    -- Where the peer gives the blocks of the hashes that it is asked for, those are valid, compact filters
    -- have no false negatives, and the wallet's filter was made by loads and rescans, a scan of a chain
    -- either ends with the filter, the data and the matches, but for empty ones, that a scan of every
    -- block gives, or with an error that the peer or the context gave.
    pub scan_chain-IsScanned :
        (chain : List (BlockNode CFilter)) (bmap : Hash → Option Block) (f : Filter)
        (wd : List Entry)
        → ((h : Hash) (b : Block) → bmap h ≡ some b → b ≡ block_of h)
        → All (IsNode W B block_of (node_matches W B)) chain
        → Reached W (f, wd)
        → IsScanned
            (full_scan W B block_of chain f wd [])
            (scan_chain W B ctx_err blocks chain bmap f wd)
    unfolding scan_chain relevant
    scan_chain-IsScanned chain bmap f wd hb hn r =
        subst
          (λ x.
            IsScanned (full_scan W B block_of x f wd [])
              (scan_chain W B ctx_err blocks chain bmap f wd))
          (slots_of-nodes bmap chain)
          (filter_loop-IsScanned (suc (length chain)) (slots_of W B bmap chain) f wd wd []
            (omega (arith, slots_of-length W B bmap chain))
            (subst (All (IsNode W B block_of (node_matches W B))) (sym (slots_of-nodes bmap chain))
              hn)
            (slots_of-IsNear bmap f wd chain hb
              (covered f wd chain (Reached-IsIndexed W w (f, wd) r))))
