-- ===== src/Spv/Backend.antt =====
-- `Rescan` of spv/backend.go: the blocks whose stored compact filters match are fetched from any peer
-- that gives valid ones, scanned and saved.
use btclibwallet.Prelude.{
  ℕ, zero, suc, Bool, Option, none, some, List, [], ◌∷◌, ◌++◌, Result, ok, err, length, ◌>>=◌,
  if◌then◌else◌,
}
use btclibwallet.Errors.{Error, with_kind, invalid}
use btclibwallet.Spv.{Hash, Tx, Block}
use btclibwallet.Spv.Rescan.{Watch, rescan_block}
use btclibwallet.Spv.Scan.{Blocks, BlockNode, Found, Slot, slots_of, wanted, fill}

module _ (W : Watch) (B : Blocks W.Entry) where
  open W use {Filter, Entry}
  open B use {CFilter, match_any}

  unfoldable pub cfilter_matches : BlockNode CFilter → List Entry → Bool
  cfilter_matches n d = match_any n.filter n.hash d

  -- The stored filters of the blocks.
  unfoldable pub load_cfilters :
      (Hash → Result Error CFilter) → List Hash → Result Error (List (BlockNode CFilter))
  load_cfilters cfilter [] = ok []
  load_cfilters cfilter (h ∷ hs) = do
    f ← cfilter h
    rest ← load_cfilters cfilter hs
    ok (record { hash = h; filter = f } ∷ rest)

  -- A try: the error of the context or of `pickRemote`, or what the peer that is picked answers.
  abbrev pub Pick : Type 0
  Pick = Result Error (List Hash → Result Error (List Block))

  -- Tries until a peer gives valid blocks, any peer any number of times. The list has the tries that
  -- the run comes to make, in order; with none left it is still trying, which is none.
  unfoldable pub fetch_from :
      List Pick
      → List Hash
      → List Entry
      → List (Slot W B)
      → Option (Result Error (List (Slot W B) × List Pick))
  fetch_from [] hs d ss = none
  fetch_from (err e ∷ ps) hs d ss = some (err e)
  fetch_from (ok blocks ∷ ps) hs d ss =
      let again' = fetch_from ps hs d ss in
      elim (blocks hs) [
        | err e ↦ again'
        | ok bs ↦ elim (fill W B cfilter_matches d ss bs) [
          | err e ↦ again'
          | ok out ↦ some (ok (out, ps))
        ]
      ]

  unfoldable pub fetch_round :
      List Pick → List Entry → List (Slot W B) → Option (Result Error (List (Slot W B) × List Pick))
  fetch_round ps d ss = elim (wanted W B cfilter_matches d ss) [
    | [] ↦ some (ok (ss, ps))
    | h ∷ hs ↦ fetch_from ps (h ∷ hs) d ss
  ]

  pub data RescanWalk : Type 0 where
    rescan_done : Filter → List Entry → Found → RescanWalk
    rescan_again : List (Slot W B) → Filter → List Entry → List Entry → Found → RescanWalk
    rescan_failed : Filter → List Entry → Found → Error → RescanWalk

  -- The context is looked at before each block; `saved` are the calls of save that went well.
  module _ (ctx_err : Hash → Option Error) (save : Hash → List Tx → Option Error) where
    unfoldable pub rescan_walk : List (Slot W B) → Filter → List Entry → Found → RescanWalk
    rescan_walk [] f wd saved = rescan_done f wd saved
    rescan_walk ((n, none) ∷ ss) f wd saved = rescan_walk ss f wd saved
    rescan_walk ((n, some b) ∷ ss) f wd saved =
        let c = rescan_block W b f wd in
        let on = rescan_walk ss c.filter c.filter_data saved in
        let saved' = saved ++ (n.hash, c.matches) ∷ [] in
        let next = rescan_walk ss c.filter c.filter_data saved' in
        elim (ctx_err n.hash) [
          | some e ↦ rescan_failed f wd saved e
          | none ↦ elim c.matches [
            | [] ↦ on
            | tx ∷ txs ↦ elim (save n.hash c.matches) [
              | some e ↦ rescan_failed c.filter c.filter_data saved e
              | none ↦ elim c.fadded [
                | [] ↦ next
                | e ∷ es ↦ rescan_again ss c.filter c.filter_data (e ∷ es) saved'
              ]
            ]
          ]
        ]

    -- The filter, the data, what was saved, and the error.
    abbrev pub RescanResult : Type 0
    RescanResult = Filter × List Entry × Found × Option Error

    -- A result of none is a run that is still trying to fetch, or out of the fuel.
    unfoldable pub rescan_loop :
        ℕ
        → List Pick
        → List (Slot W B)
        → Filter
        → List Entry
        → List Entry
        → Found
        → Option RescanResult
    rescan_loop zero ps ss f wd d saved = none
    rescan_loop (suc k) ps [] f wd d saved = some (f, wd, saved, none)
    rescan_loop (suc k) ps (s ∷ ss) f wd d saved = elim (fetch_round ps d (s ∷ ss)) [
      | none ↦ none
      | some (err e) ↦ some (f, wd, saved, some e)
      | some (ok (slots, ps')) ↦ elim (rescan_walk slots f wd saved) [
        | rescan_done f' wd' saved' ↦ some (f', wd', saved', none)
        | rescan_failed f' wd' saved' e ↦ some (f', wd', saved', some e)
        | rescan_again ss' f' wd' d' saved' ↦ rescan_loop k ps' ss' f' wd' d' saved'
      ]
    ]

    -- The wallet of the backend is there or not.
    unfoldable pub rescan :
        Bool
        → (Hash → Result Error CFilter)
        → List Pick
        → List Hash
        → Filter
        → List Entry
        → Option RescanResult
    rescan has_wallet cfilter ps hashes f wd =
        if has_wallet
        then elim (load_cfilters cfilter hashes) [
          | err e ↦ some (f, wd, [], some e)
          | ok nodes ↦
              rescan_loop (suc (length nodes)) ps (slots_of W B (λ h. none) nodes) f wd wd []
        ]
        else some (f, wd, [], some (with_kind invalid ""))
