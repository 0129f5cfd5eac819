-- ===== src/Spv/Saved.antt =====
-- spv/backend.go: `Rescan` saves what a scan of every block finds.
use btclibwallet.Prelude.{
  ℕ, zero, suc, ◌≡◌, ◌<◌, ◌∙◌, refl, ap, sym, subst, true, Option, none, some, List, [], ◌∷◌, ◌++◌,
  Result, ok, err, length, arith, Option-cases, List-cases, inl, inr, ◌⊎◌, All, append_nil, Elem,
  here, there,
}
use btclibwallet.Errors.{Error}
use btclibwallet.Spv.{Hash, Tx, Block}
use btclibwallet.Spv.Rescan.{Watch, IsWatch, rescan_block}
use btclibwallet.Spv.Filters.{rescan_block-IsGrown, rescan_block-matches}
use btclibwallet.Spv.Scan.{Blocks, BlockNode, Found, Slot, slots_of}
use btclibwallet.Spv.Fetch.{IsNode, IsNear, IsSettled, nodes}
use btclibwallet.Spv.Full.{keep, full_scan, full_scan-quiet, IsNear-slots}
use btclibwallet.Spv.Terminates.{slots_of-length}
use btclibwallet.Spv.Loaded.{Reached, Reached-IsIndexed}
use btclibwallet.Spv.Complete.{slots_of-nodes, slots_of-IsNear, covered}
use btclibwallet.Spv.Rescanned.{RescanWalk-cases, rescan_walk-length, fetch_round-length}
use btclibwallet.Spv.Tries.{IsTruthful, IsPeer, HasSettling, HasSettling-le, fetch_round-IsRound}
use btclibwallet.Spv.Backend.{
  load_cfilters, cfilter_matches, Pick, RescanWalk, rescan_done, rescan_again, rescan_failed,
  rescan_walk, RescanResult, rescan_loop, rescan,
}

-- `Given` are the errors of the tries.
module _ (W : Watch) (B : Blocks W.Entry) (block_of : Hash → Block) (w : IsWatch W)
    (Given : Error → Type 0) where
  open W use {Filter, Entry}
  open B use {CFilter}

  module _ (ctx_err : Hash → Option Error) (save : Hash → List Tx → Option Error) where
    -- The context or the saving gave the error.
    abbrev pub IsStopped : Error → Type 0
    IsStopped e =
        ((h : Hash) × (ctx_err h ≡ some e)) ⊎ ((h : Hash) × (txs : List Tx) × (save h txs ≡ some e))

    abbrev IsKept : Filter × List Entry × Found → RescanWalk W B → Type 0
    IsKept full (rescan_done f wd saved) = full ≡ (f, wd, saved)
    IsKept full (rescan_failed f wd saved e) = IsStopped e
    IsKept full (rescan_again ss f wd d saved) =
        (full ≡ full_scan W B block_of (nodes W B block_of ss) f wd saved)
        × All (IsNode W B block_of (cfilter_matches W B)) (nodes W B block_of ss)
        × All (IsNear W B block_of f d) ss

    IsKept-of :
        (full full' : Filter × List Entry × Found) (v v' : RescanWalk W B)
        → full ≡ full'
        → v ≡ v'
        → IsKept full' v'
        → IsKept full v
    IsKept-of full full' v v' a b h =
        subst (λ x. IsKept x v) (sym a) (subst (λ x. IsKept full' x) (sym b) h)

    full_scan-step :
        (n : BlockNode CFilter) (ns : List (BlockNode CFilter)) (b : Block) (f : Filter)
        (wd : List Entry) (saved : Found)
        → b ≡ block_of n.hash
        → full_scan W B block_of (n ∷ ns) f wd saved
          ≡ full_scan W B block_of ns
              (rescan_block W b f wd).filter
              (rescan_block W b f wd).filter_data
              (saved ++ keep (n.hash, (rescan_block W b f wd).matches))
    unfolding full_scan
    full_scan-step n ns b f wd saved e = rw e refl

    keep-none :
        (saved : Found) (h : Hash) (txs : List Tx) → txs ≡ [] → saved ++ keep (h, txs) ≡ saved
    unfolding keep
    keep-none saved h txs e = rw e (append_nil saved)

    keep-some :
        (h : Hash) (txs : List Tx) (t : Tx) (ts : List Tx)
        → txs ≡ t ∷ ts
        → keep (h, txs) ≡ (h, txs) ∷ []
    unfolding keep
    keep-some h txs t ts e = rw e refl

    rescan_walk-IsKept :
        (ss : List (Slot W B)) (f : Filter) (wd : List Entry) (saved : Found)
        → All (IsNode W B block_of (cfilter_matches W B)) (nodes W B block_of ss)
        → All (IsSettled W B block_of f) ss
        → IsKept
            (full_scan W B block_of (nodes W B block_of ss) f wd saved)
            (rescan_walk W B ctx_err save ss f wd saved)
    unfolding rescan_walk full_scan
    rescan_walk-IsKept [] f wd saved h settled = refl
    rescan_walk-IsKept ((n, none) ∷ ss) f wd saved h settled =
        IsKept-of _ _ _ _
          (full_scan-quiet W B block_of w n (nodes W B block_of ss) f wd saved settled.0) refl
          (rescan_walk-IsKept ss f wd saved h.1 settled.1)
    rescan_walk-IsKept ((n, some b) ∷ ss) f wd saved h settled =
        let c = rescan_block W b f wd in
        let g = rescan_block-IsGrown W w b f wd in
        let full = full_scan-step n (nodes W B block_of ss) b f wd saved settled.0 in
        let saved' = saved ++ (n.hash, c.matches) ∷ [] in
        let same = λ (a : c.fadded ≡ []).
          subst (λ x. All (IsSettled W B block_of x) ss) (sym (g.none_added a)) settled.1 in
        elim (Option-cases (ctx_err n.hash)) [
          | inr (e, x) ↦
              IsKept-of _ _ _ (rescan_failed f wd saved e) refl (ground (arith, x))
                (inl (n.hash, x))
          | inl x ↦ elim (List-cases c.matches) [
            | inl m ↦
                IsKept-of _ _ _ (rescan_walk W B ctx_err save ss c.filter c.filter_data saved)
                  (full
                    ∙ ap (full_scan W B block_of (nodes W B block_of ss) c.filter c.filter_data)
                        (keep-none saved n.hash c.matches m))
                  (ground (arith, x, m))
                  (rescan_walk-IsKept ss c.filter c.filter_data saved h.1
                    (same (rescan_block-matches W b f wd m)))
            | inr (t, ts, m) ↦
                let full' =
                  full
                  ∙ ap
                      (λ l.
                        full_scan W B block_of (nodes W B block_of ss) c.filter c.filter_data
                          (saved ++ l))
                      (keep-some n.hash c.matches t ts m) in
                elim (Option-cases (save n.hash c.matches)) [
                  | inr (e, v) ↦
                      IsKept-of _ _ _ (rescan_failed c.filter c.filter_data saved e) refl
                        (ground (arith, x, m, v)) (inr (n.hash, c.matches, v))
                  | inl v ↦ elim (List-cases c.fadded) [
                    | inl a ↦
                        IsKept-of _ _ _
                          (rescan_walk W B ctx_err save ss c.filter c.filter_data saved') full'
                          (ground (arith, x, m, v, a))
                          (rescan_walk-IsKept ss c.filter c.filter_data saved' h.1 (same a))
                    | inr (y, ys, a) ↦
                        IsKept-of _ _ _ (rescan_again ss c.filter c.filter_data c.fadded saved')
                          full' (ground (arith, x, m, v, a))
                          (refl, h.1, IsNear-slots W B block_of w f c ss g settled.1)
                  ]
                ]
          ]
        ]

    -- The result of the full scan with all of it saved, or an error.
    abbrev pub IsRescanned :
        Filter × List Entry × Found → Option (RescanResult W B ctx_err save) → Type 0
    IsRescanned full r =
        (r ≡ some (full.0, full.1, full.2, none))
        ⊎ ((f : Filter) × (wd : List Entry) × (saved : Found) × (e : Error) × (r
              ≡ some (f, wd, saved, some e))
            × (Given e ⊎ IsStopped e))

    rescan_loop-IsRescanned :
        (k : ℕ) (ps : List (Pick W B)) (ss : List (Slot W B)) (f : Filter) (wd d : List Entry)
        (saved : Found)
        → length ss < k
        → All (IsPeer W B block_of w Given) ps
        → HasSettling W B block_of (length ss) ps
        → All (IsNode W B block_of (cfilter_matches W B)) (nodes W B block_of ss)
        → All (IsNear W B block_of f d) ss
        → IsRescanned
            (full_scan W B block_of (nodes W B block_of ss) f wd saved)
            (rescan_loop W B ctx_err save k ps ss f wd d saved)
    unfolding rescan_loop full_scan
    rescan_loop-IsRescanned zero ps ss f wd d saved l p q h near = absurd (omega (arith, l))
    rescan_loop-IsRescanned (suc k) ps [] f wd d saved l p q h near = inl refl
    rescan_loop-IsRescanned (suc k) ps (s ∷ ss) f wd d saved l p q h near =
        elim (fetch_round-IsRound W B block_of w Given (length ss) ps f d (s ∷ ss) p q h near) [
          | inr (e, r, gv) ↦ inr (f, wd, saved, e, rw (rescan_loop, r) refl, inl gv)
          | inl (slots, ps', r, ns, settled, p', q') ↦
              let full = full_scan W B block_of (nodes W B block_of slots) f wd saved in
              let kept =
                rescan_walk-IsKept slots f wd saved
                  (subst (All (IsNode W B block_of (cfilter_matches W B))) (sym ns) h) settled in
              let same = ap (λ x. full_scan W B block_of x f wd saved) ns in
              elim (RescanWalk-cases W B (rescan_walk W B ctx_err save slots f wd saved)) [
                | inl (f', wd', saved', v) ↦
                    let e : full ≡ (f', wd', saved') = subst (IsKept full) v kept in
                    inl (
                      rw (rescan_loop, r, v)
                        (ap (λ (x : Filter × List Entry × Found). some (x.0, x.1, x.2, none))
                          (sym e ∙ same)))
                | inr (inl (f', wd', saved', e, v)) ↦ inr (
                  f',
                  wd',
                  saved',
                  e,
                  rw (rescan_loop, r, v) refl,
                  inr (subst (IsKept full) v kept),
                )
                | inr (inr (ss', f', wd', d', saved', v)) ↦
                    let more = subst (IsKept full) v kept in
                    let a =
                      rescan_walk-length W B ctx_err save slots f wd saved ss' f' wd' d' saved' v in
                    let b = fetch_round-length W B ps d (s ∷ ss) slots ps' r in
                    let rest =
                      rescan_loop-IsRescanned k ps' ss' f' wd' d' saved' (omega (arith, a, b, l)) p'
                        (HasSettling-le W B block_of (length ss') (length ss) ps'
                          (omega (arith, a, b)) q')
                        more.1 more.2 in
                    let step : rescan_loop W B ctx_err save (suc k) ps (s ∷ ss) f wd d saved
                        ≡ rescan_loop W B ctx_err save k ps' ss' f' wd' d' saved' =
                      rw (rescan_loop, r, v) refl in
                    subst
                      (λ x.
                        IsRescanned (full_scan W B block_of x f wd saved)
                          (rescan_loop W B ctx_err save (suc k) ps (s ∷ ss) f wd d saved))
                      ns
                      (subst (IsRescanned full) (sym step) (
                        subst
                          (λ x.
                            IsRescanned x (rescan_loop W B ctx_err save k ps' ss' f' wd' d' saved'))
                          (sym more.0) rest))
              ]
        ]

    pub rescan_found-IsRescanned :
        (cfilter : Hash → Result Error CFilter) (ps : List (Pick W B)) (hashes : List Hash)
        (chain : List (BlockNode CFilter)) (f : Filter) (wd : List Entry)
        → load_cfilters W B cfilter hashes ≡ ok chain
        → All (IsPeer W B block_of w Given) ps
        → HasSettling W B block_of (length chain) ps
        → All (IsNode W B block_of (cfilter_matches W B)) chain
        → Reached W (f, wd)
        → IsRescanned
            (full_scan W B block_of chain f wd [])
            (rescan W B ctx_err save true cfilter ps hashes f wd)
    unfolding rescan
    rescan_found-IsRescanned cfilter ps hashes chain f wd e p q h r =
        rw (rescan, e)
          (subst
            (λ x. IsRescanned (full_scan W B block_of x f wd []) (
              rescan_loop W B ctx_err save (suc (length chain)) ps (slots_of W B (λ i. none) chain)
                f wd wd []))
            (slots_of-nodes W B block_of w (λ i. none) chain)
            (rescan_loop-IsRescanned (suc (length chain)) ps (slots_of W B (λ i. none) chain) f wd
              wd [] (omega (arith, slots_of-length W B (λ i. none) chain)) p
              (subst (λ n. HasSettling W B block_of n ps)
                (sym (slots_of-length W B (λ i. none) chain)) q)
              (subst (All (IsNode W B block_of (cfilter_matches W B)))
                (sym (slots_of-nodes W B block_of w (λ i. none) chain)) h)
              (slots_of-IsNear W B block_of w (λ i. none) f wd chain (λ i b q. absurd (cc q))
                (covered W B block_of w f wd chain (Reached-IsIndexed W w (f, wd) r)))))

-- The errors that the tries to fetch give.
abbrev pub IsTried : (W : Watch) (B : Blocks W.Entry) → List (Pick W B) → Error → Type 0
IsTried W B ps e = Elem {A = Pick W B} (err e) ps

IsPeer-IsTried :
    (W : Watch) (B : Blocks W.Entry) (block_of : Hash → Block) (w : IsWatch W)
    (all ps : List (Pick W B))
    → ((p : Pick W B) → Elem p ps → Elem p all)
    → All (IsTruthful W B block_of) ps
    → All (IsPeer W B block_of w (IsTried W B all)) ps
IsPeer-IsTried W B block_of w all [] sub t = tt
IsPeer-IsTried W B block_of w all (p ∷ ps) sub t = (
  (t.0, λ e q. subst (λ x. Elem x all) q (sub p here)),
  IsPeer-IsTried W B block_of w all ps (λ x i. sub x (there i)) t.1,
)

-- Where peers, if they answer, give the blocks of the hashes that they are asked for, those are
-- valid, the stored filters have no false negatives, the wallet's filter was made by loads and
-- rescans, and of the tries that the run makes, peers may be tried repeatedly and fail, at
-- least as many as the chain has blocks settle a round (they give an error of the context or of
-- `pickRemote`, or a peer that has all blocks), a rescan ends: it either saves, once each and in
-- order, the blocks in which a scan of every block finds transactions, with these transactions,
-- and leaves the filter and the data of that scan, or it ends with an error that the context or
-- the saving gave, or one of the tries.
pub rescan-IsRescanned :
    (W : Watch) (B : Blocks W.Entry) (block_of : Hash → Block) (w : IsWatch W)
    (ctx_err : Hash → Option Error) (save : Hash → List Tx → Option Error)
    (cfilter : Hash → Result Error B.CFilter) (ps : List (Pick W B)) (hashes : List Hash)
    (chain : List (BlockNode B.CFilter)) (f : W.Filter) (wd : List W.Entry)
    → load_cfilters W B cfilter hashes ≡ ok chain
    → All (IsTruthful W B block_of) ps
    → HasSettling W B block_of (length chain) ps
    → All (IsNode W B block_of (cfilter_matches W B)) chain
    → Reached W (f, wd)
    → IsRescanned W B block_of w
        (IsTried W B ps)
        ctx_err
        save
        (full_scan W B block_of chain f wd [])
        (rescan W B ctx_err save true cfilter ps hashes f wd)
rescan-IsRescanned W B block_of w ctx_err save cfilter ps hashes chain f wd e t q h r =
    rescan_found-IsRescanned W B block_of w (IsTried W B ps) ctx_err save cfilter ps hashes chain f
      wd e (IsPeer-IsTried W B block_of w ps ps (λ p i. i) t) q h r
