-- ===== src/Spv/Rescanned.antt =====
-- spv/backend.go: each round of `Rescan` leaves fewer blocks.
use btclibwallet.Prelude.{
  ◌≡◌, ◌<◌, ◌∙◌, refl, ap, Option, none, some, List, [], ◌∷◌, ◌++◌, ok, err, length, arith,
  Option-cases, Result-cases, List-cases, inl, inr, ◌⊎◌,
}
use btclibwallet.Errors.{Error}
use btclibwallet.Spv.{Hash, Tx}
use btclibwallet.Spv.Rescan.{Watch, rescan_block}
use btclibwallet.Spv.Scan.{Blocks, Found, Slot, wanted, fill}
use btclibwallet.Spv.Terminates.{fill-length}
use btclibwallet.Spv.Backend.{
  cfilter_matches, Pick, fetch_from, fetch_round, RescanWalk, rescan_done, rescan_again,
  rescan_failed, rescan_walk,
}

module _ (W : Watch) (B : Blocks W.Entry) where
  open W use {Filter, Entry}
  open B use {CFilter}

  fetch_from-length :
      (ps : List (Pick W B)) (hs : List Hash) (d : List Entry) (ss out : List (Slot W B))
      (ps' : List (Pick W B))
      → fetch_from W B ps hs d ss ≡ some (ok (out, ps'))
      → length out ≡ length ss
  unfolding fetch_from
  fetch_from-length [] hs d ss out ps' h = absurd (cc h)
  fetch_from-length (err e ∷ ps) hs d ss out ps' h = absurd (cc h)
  fetch_from-length (ok blocks ∷ ps) hs d ss out ps' h = elim (Result-cases (blocks hs)) [
    | inr (e, b) ↦ fetch_from-length ps hs d ss out ps' (ground (arith, h, b))
    | inl (bs, b) ↦ elim (Result-cases (fill W B (cfilter_matches W B) d ss bs)) [
      | inr (e, f) ↦ fetch_from-length ps hs d ss out ps' (ground (arith, h, b, f))
      | inl (o, f) ↦
          fill-length W B (cfilter_matches W B) d ss bs out (f ∙ ap ok (ground (arith, h, b, f)))
    ]
  ]

  pub fetch_round-length :
      (ps : List (Pick W B)) (d : List Entry) (ss out : List (Slot W B)) (ps' : List (Pick W B))
      → fetch_round W B ps d ss ≡ some (ok (out, ps'))
      → length out ≡ length ss
  unfolding fetch_round
  fetch_round-length ps d ss out ps' h = elim (List-cases (wanted W B (cfilter_matches W B) d ss)) [
    | inl e ↦ ap length (ground (arith, h, e))
    | inr (x, xs, e) ↦ fetch_from-length ps (x ∷ xs) d ss out ps' (ground (arith, h, e))
  ]

  pub RescanWalk-cases :
      (v : RescanWalk W B)
      → ((f : Filter) × (wd : List Entry) × (saved : Found) × (v ≡ rescan_done f wd saved))
        ⊎ (((f : Filter) × (wd : List Entry) × (saved : Found) × (e : Error) × (v
                ≡ rescan_failed f wd saved e))
            ⊎ ((ss : List (Slot W B)) × (f : Filter) × (wd d : List Entry) × (saved : Found) × (v
                  ≡ rescan_again ss f wd d saved)))
  RescanWalk-cases (rescan_done f wd saved) = inl (f, wd, saved, refl)
  RescanWalk-cases (rescan_failed f wd saved e) = inr (inl (f, wd, saved, e, refl))
  RescanWalk-cases (rescan_again ss f wd d saved) = inr (inr (ss, f, wd, d, saved, refl))

  module _ (ctx_err : Hash → Option Error) (save : Hash → List Tx → Option Error) where
    pub rescan_walk-length :
        (ss : List (Slot W B)) (f : Filter) (wd : List Entry) (saved : Found)
        (ss' : List (Slot W B)) (f' : Filter) (wd' d' : List Entry) (saved' : Found)
        → rescan_walk W B ctx_err save ss f wd saved ≡ rescan_again ss' f' wd' d' saved'
        → length ss' < length ss
    unfolding rescan_walk
    rescan_walk-length [] f wd saved ss' f' wd' d' saved' h = absurd (cc h)
    rescan_walk-length ((n, none) ∷ ss) f wd saved ss' f' wd' d' saved' h =
        omega (arith, rescan_walk-length ss f wd saved ss' f' wd' d' saved' h)
    rescan_walk-length ((n, some b) ∷ ss) f wd saved ss' f' wd' d' saved' h =
        let c = rescan_block W b f wd in
        elim (Option-cases (ctx_err n.hash)) [
          | inr (e, x) ↦ absurd (ground (arith, h, x))
          | inl x ↦ elim (List-cases c.matches) [
            | inl m ↦
                let r =
                  rescan_walk-length ss c.filter c.filter_data saved ss' f' wd' d' saved'
                    (ground (arith, h, x, m)) in
                omega (arith, r)
            | inr (t, ts, m) ↦ elim (Option-cases (save n.hash c.matches)) [
              | inr (e, v) ↦ absurd (ground (arith, h, x, m, v))
              | inl v ↦ elim (List-cases c.fadded) [
                | inl a ↦
                    let r =
                      rescan_walk-length ss c.filter c.filter_data
                        (saved ++ (n.hash, c.matches) ∷ []) ss' f' wd' d' saved'
                        (ground (arith, h, x, m, v, a)) in
                    omega (arith, r)
                | inr (y, ys, a) ↦ ground (arith, h, x, m, v, a)
              ]
            ]
          ]
        ]
