-- ===== src/Spv/Terminates.antt =====
-- spv/sync.go: the filter loop of `scanChain` ends, since each round leaves fewer blocks to scan.
use btclibwallet.Prelude.{
  ℕ, zero, suc, ◌≡◌, ◌<◌, ◌⊎◌, inl, inr, refl, Option, none, some, List, [], ◌∷◌, ◌++◌, Result, ok,
  err, Bool, Bool-cases, Option-cases, List-cases, Result-cases, length, arith, ◌>>=◌,
}
use btclibwallet.Errors.{Error}
use btclibwallet.Spv.{Hash, Block}
use btclibwallet.Spv.Rescan.{Watch, rescan_block}
use btclibwallet.Spv.Scan.{
  Blocks, BlockNode, Found, Slot, slots_of, node_matches, wanted, fill_head, fill, Walk, finished,
  again, walk, fetch_matches, filter_loop, scan_chain,
}

module _ (W : Watch) (B : Blocks W.Entry) where
  open W use {Filter, Entry}
  open B use {CFilter}

  bind-ok {ℓ} :
      {E A C : Type ℓ} (m : Result E A) (k : A → Result E C) (c : C)
      → (m >>= k) ≡ ok c
      → (a : A) × (m ≡ ok a) × (k a ≡ ok c)
  bind-ok (ok a) k c h = (a, refl, h)
  bind-ok (err e) k c h = absurd (cc h)

  pub fill-length :
      (test : BlockNode CFilter → List Entry → Bool) (d : List Entry) (ss : List (Slot W B))
      (bs : List Block) (out : List (Slot W B))
      → fill W B test d ss bs ≡ ok out
      → length out ≡ length ss
  unfolding fill
  fill-length test d [] bs out h = cc h
  fill-length test d ((n, some b) ∷ ss) bs out h =
      let i = bind-ok (fill W B test d ss bs) _ out h in
      ground (arith, i.2, fill-length test d ss bs i.0 i.1)
  fill-length test d ((n, none) ∷ ss) bs out h = elim (Bool-cases (test n d)) [
    | inl y ↦
        let i =
          bind-ok (fill_head W B n bs) (λ hd. fill W B test d ss hd.1 >>= λ rest. ok (hd.0 ∷ rest))
            out (ground (arith, h, y)) in
        let j = bind-ok (fill W B test d ss i.0.1) (λ rest. ok (i.0.0 ∷ rest)) out i.2 in
        ground (arith, j.2, fill-length test d ss i.0.1 j.0 j.1)
    | inr y ↦
        let i =
          bind-ok (fill W B test d ss bs) (λ rest. ok ((n, none) ∷ rest)) out
            (ground (arith, h, y)) in
        ground (arith, i.2, fill-length test d ss bs i.0 i.1)
  ]

  pub walk-length :
      (ss : List (Slot W B)) (f : Filter) (wd : List Entry) (found : Found) (ss' : List (Slot W B))
      (f' : Filter) (wd' d' : List Entry) (found' : Found)
      → walk W B ss f wd found ≡ again ss' f' wd' d' found'
      → length ss' < length ss
  unfolding walk
  walk-length [] f wd found ss' f' wd' d' found' h = absurd (cc h)
  walk-length ((n, none) ∷ ss) f wd found ss' f' wd' d' found' h =
      omega (arith, walk-length ss f wd found ss' f' wd' d' found' h)
  walk-length ((n, some b) ∷ ss) f wd found ss' f' wd' d' found' h =
      let c = rescan_block W b f wd in
      let rest =
        walk-length ss c.filter c.filter_data (found ++ (n.hash, c.matches) ∷ []) ss' f' wd' d'
          found' in
      elim (List-cases c.fadded) [
        | inl e ↦ let r = rest (ground (arith, h, e)) in omega (arith, r)
        | inr (x, xs, e) ↦ ground (arith, h, e)
      ]

  pub slots_of-length :
      (bmap : Hash → Option Block) (ns : List (BlockNode CFilter))
      → length (slots_of W B bmap ns) ≡ length ns
  unfolding slots_of
  slots_of-length bmap [] = refl
  slots_of-length bmap (n ∷ ns) = omega (arith, slots_of-length bmap ns)

  Walk-cases :
      (w : Walk W B)
      → ((f : Filter) × (wd : List Entry) × (found : Found) × (w ≡ finished f wd found))
        ⊎ ((ss : List (Slot W B)) × (f : Filter) × (wd d : List Entry) × (found : Found) × (w
              ≡ again ss f wd d found))
  Walk-cases (finished f wd found) = inl (f, wd, found, refl)
  Walk-cases (again ss f wd d found) = inr (ss, f, wd, d, found, refl)

  module _ (ctx_err : ℕ → Option Error) (blocks : List Hash → Result Error (List Block)) where
    pub fetch_matches-length :
        (d : List Entry) (ss out : List (Slot W B))
        → fetch_matches W B ctx_err blocks d ss ≡ ok out
        → length out ≡ length ss
    unfolding fetch_matches
    fetch_matches-length d ss out h = elim (List-cases (wanted W B (node_matches W B) d ss)) [
      | inl e ↦ ground (arith, h, e)
      | inr (x, xs, e) ↦
          let i =
            bind-ok (blocks (x ∷ xs)) (λ bs. fill W B (node_matches W B) d ss bs) out
              (ground (arith, h, e)) in
          fill-length (node_matches W B) d ss i.0 out i.2
    ]

    filter_loop-some :
        (k : ℕ) (ss : List (Slot W B)) (f : Filter) (wd d : List Entry) (found : Found)
        → length ss < k
        → (r : Filter × List Entry × Result Error Found) × (filter_loop W B ctx_err blocks k ss f wd
              d found
            ≡ some r)
    unfolding filter_loop
    filter_loop-some zero ss f wd d found h = absurd (omega (arith, h))
    filter_loop-some (suc k) [] f wd d found h = (_, refl)
    filter_loop-some (suc k) (s ∷ ss) f wd d found h =
        elim (Result-cases (fetch_matches W B ctx_err blocks d (s ∷ ss))) [
          | inr (e, r) ↦ ((f, wd, err e), rw (filter_loop, r))
          | inl (slots, r) ↦ elim (Option-cases (ctx_err (length (s ∷ ss)))) [
            | inr (e, c) ↦ ((f, wd, err e), rw (filter_loop, r, c))
            | inl c ↦ elim (Walk-cases (walk W B slots f wd found)) [
              | inl (f', wd', found', w) ↦ ((f', wd', ok found'), rw (filter_loop, r, c, w))
              | inr (ss', f', wd', d', found', w) ↦
                  let l = walk-length slots f wd found ss' f' wd' d' found' w in
                  let m = fetch_matches-length d (s ∷ ss) slots r in
                  let rest = filter_loop-some k ss' f' wd' d' found' (omega (arith, l, m, h)) in
                  (rest.0, rw (filter_loop, r, c, w, rest.1))
            ]
          ]
        ]

    -- A scan ends with a result: the number of blocks and one is fuel enough, whatever the peer
    -- answers, whatever the filters match and whenever the context is done.
    pub scan_chain-terminates :
        (chain : List (BlockNode CFilter)) (bmap : Hash → Option Block) (f : Filter)
        (wd : List Entry)
        → (r : Filter × List Entry × Result Error Found) × (scan_chain W B ctx_err blocks chain bmap
              f wd
            ≡ some r)
    unfolding scan_chain
    scan_chain-terminates chain bmap f wd =
        filter_loop-some (suc (length chain)) (slots_of W B bmap chain) f wd wd []
          (omega (arith, slots_of-length bmap chain))
