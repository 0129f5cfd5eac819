-- ===== src/Spv/Scan.antt =====
-- `scanChain` of spv/sync.go: the blocks of a chain whose compact filters match are fetched and
-- scanned, and what a block adds to the wallet's filter is matched against the blocks after it.
-- A slot is a node of the chain with its block, once fetched; the slots are those from `idx` on.
use btclibwallet.Prelude.{
  ℕ, zero, suc, Bool, true, false, Option, none, some, List, [], ◌∷◌, ◌++◌, not, ◌&&◌, ◌==◌, Result,
  ok, err, if◌then◌else◌, length, ◌>>=◌,
}
use btclibwallet.Errors.{Error}
use btclibwallet.Spv.{Hash, Tx, Block}
use btclibwallet.Spv.Rescan.{Watch, rescan_block}

-- dcrd's compact filters (gcs, blockcf) and its checks of blocks (wallet/validate), none for valid.
pub record Blocks (Entry : Type 0) : Type 1 where
  pub CFilter : Type 0
  pub filter_n : CFilter → ℕ
  -- `f.MatchAny(blockcf.Key(hash), data)`
  pub match_any : CFilter → Hash → List Entry → Bool
  pub merkle_roots : Block → Option Error
  pub dcp0005_merkle_root : Block → Option Error
  pub regular_cfilter : Block → CFilter → Option Error

-- wallet.BlockNode
pub record BlockNode (CFilter : Type 0) : Type 0 where
  pub hash : Hash
  pub filter : CFilter

-- The insertions into the map `found`, in order.
abbrev pub Found : Type 0
Found = List (Hash × List Tx)

module _ (W : Watch) (B : Blocks W.Entry) where
  open W use {Filter, Entry}
  open B use {CFilter, filter_n, match_any, merkle_roots, dcp0005_merkle_root, regular_cfilter}

  abbrev pub Slot : Type 0
  Slot = BlockNode CFilter × Option Block

  -- The blocks of bmap need not be fetched.
  unfoldable pub slots_of : (Hash → Option Block) → List (BlockNode CFilter) → List Slot
  slots_of bmap [] = []
  slots_of bmap (n ∷ ns) = (n, bmap n.hash) ∷ slots_of bmap ns

  unfoldable pub node_matches : BlockNode CFilter → List Entry → Bool
  node_matches n d = not (filter_n n.filter == 0) && match_any n.filter n.hash d

  unfoldable pub validate_block : Block → CFilter → Option Error
  validate_block b f = elim (merkle_roots b) [
    | none ↦ regular_cfilter b f
    | some e ↦ elim (dcp0005_merkle_root b) [ none ↦ regular_cfilter b f | some e' ↦ some e' ]
  ]

  -- `fmatches`: the workers find them in any order, here it is that of the chain.
  unfoldable pub wanted :
      (BlockNode CFilter → List Entry → Bool) → List Entry → List Slot → List Hash
  wanted test d [] = []
  wanted test d ((n, some b) ∷ ss) = wanted test d ss
  wanted test d ((n, none) ∷ ss) =
      let rest = wanted test d ss in if test n d then n.hash ∷ rest else rest

  unfoldable pub fill_head : BlockNode CFilter → List Block → Result Error (Slot × List Block)
  fill_head n [] = ok ((n, none), [])
  fill_head n (b ∷ bs) = elim (validate_block b n.filter) [
    | none ↦ ok ((n, some b), bs)
    | some e ↦ err e
  ]

  -- The blocks in the order of `fmatches`, each checked.
  unfoldable pub fill :
      (BlockNode CFilter → List Entry → Bool)
      → List Entry
      → List Slot
      → List Block
      → Result Error (List Slot)
  fill test d [] bs = ok []
  fill test d ((n, some b) ∷ ss) bs = do rest ← fill test d ss bs; ok ((n, some b) ∷ rest)
  fill test d ((n, none) ∷ ss) bs =
      let skip = fill test d ss bs in
      elim (test n d) [
        | false ↦ do rest ← skip; ok ((n, none) ∷ rest)
        | true ↦ do hd ← fill_head n bs; rest ← fill test d ss hd.1; ok (hd.0 ∷ rest)
      ]

  -- The walk over the fetched blocks stops where one adds to the filter.
  pub data Walk : Type 0 where
    finished : Filter → List Entry → Found → Walk
    again : List Slot → Filter → List Entry → List Entry → Found → Walk

  unfoldable pub walk : List Slot → Filter → List Entry → Found → Walk
  walk [] f wd found = finished f wd found
  walk ((n, none) ∷ ss) f wd found = walk ss f wd found
  walk ((n, some b) ∷ ss) f wd found =
      let c = rescan_block W b f wd in
      let found' = found ++ (n.hash, c.matches) ∷ [] in
      let rest = walk ss c.filter c.filter_data found' in
      elim c.fadded [ [] ↦ rest | e ∷ es ↦ again ss c.filter c.filter_data (e ∷ es) found' ]

  -- The context by the number of slots that are left, which no two rounds share, and `rp.Blocks`.
  module _ (ctx_err : ℕ → Option Error) (blocks : List Hash → Result Error (List Block)) where
    unfoldable pub fetch_matches : List Entry → List Slot → Result Error (List Slot)
    fetch_matches d ss = elim (wanted node_matches d ss) [
      | [] ↦ ok ss
      | h ∷ hs ↦ do bs ← blocks (h ∷ hs); fill node_matches d ss bs
    ]

    -- The wallet's filter and data with the result; none where the fuel runs out.
    unfoldable pub filter_loop :
        ℕ
        → List Slot
        → Filter
        → List Entry
        → List Entry
        → Found
        → Option (Filter × List Entry × Result Error Found)
    filter_loop zero ss f wd d found = none
    filter_loop (suc k) [] f wd d found = some (f, wd, ok found)
    filter_loop (suc k) (s ∷ ss) f wd d found = elim (fetch_matches d (s ∷ ss)) [
      | err e ↦ some (f, wd, err e)
      | ok slots ↦ elim (ctx_err (length (s ∷ ss))) [
        | some e ↦ some (f, wd, err e)
        | none ↦ elim (walk slots f wd found) [
          | finished f' wd' found' ↦ some (f', wd', ok found')
          | again ss' f' wd' d' found' ↦ filter_loop k ss' f' wd' d' found'
        ]
      ]
    ]

    unfoldable pub scan_chain :
        List (BlockNode CFilter)
        → (Hash → Option Block)
        → Filter
        → List Entry
        → Option (Filter × List Entry × Result Error Found)
    scan_chain chain bmap f wd = filter_loop (suc (length chain)) (slots_of bmap chain) f wd wd []
