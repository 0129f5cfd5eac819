-- ===== src/Spv/Fetch.antt =====
-- spv/sync.go: what a round of `scanChain` fetches, where the blocks of the chain are `block_of`.
use btclibwallet.Prelude.{
  Bool, ℕ, ◌≡◌, ◌⊎◌, inl, inr, refl, Option, none, some, List, [], ◌∷◌, map, Result, ok, err, true,
  false, if◌then◌else◌, ap, Bool-cases, List-cases, Result-cases, arith, All, Elem,
}
use btclibwallet.Errors.{Error}
use btclibwallet.Spv.{Hash, OutPoint, Block}
use btclibwallet.Spv.Rescan.{Watch}
use btclibwallet.Spv.Matches.{spent_by, paid_by, IsQuiet}
use btclibwallet.Spv.Scan.{
  Blocks, BlockNode, Slot, node_matches, validate_block, wanted, fill_head, fill, fetch_matches,
}

module _ (W : Watch) (B : Blocks W.Entry) (block_of : Hash → Block) where
  open W use {Filter, Address, Entry, exists_address, exists_unspent, out_point_entry, script_entry}
  open B use {CFilter}

  -- Nothing that the block spends or pays has an entry in the data.
  abbrev pub IsAbsent : List Entry → Block → Type 0
  IsAbsent d b =
      All (λ o. ¬ Elem (out_point_entry o) d) (spent_by W b)
      × All (λ a. (e : Entry) → script_entry a ≡ some e → ¬ Elem e d) (paid_by W b)

  -- What the block has of the wallet has its entry in the data.
  abbrev pub IsCovered : Filter → List Entry → Block → Type 0
  IsCovered f d b =
      All (λ o. exists_unspent f o ≡ true → Elem (out_point_entry o) d) (spent_by W b)
      × All (λ a. exists_address f a ≡ true → (e : Entry) × (script_entry a ≡ some e) × Elem e d)
          (paid_by W b)

  -- A slot before the fetch, and after it.
  abbrev pub IsNear : Filter → List Entry → Slot W B → Type 0
  IsNear f d (n, none) = IsCovered f d (block_of n.hash)
  IsNear f d (n, some b) = b ≡ block_of n.hash

  abbrev pub IsSettled : Filter → Slot W B → Type 0
  IsSettled f (n, none) = IsQuiet W f (block_of n.hash)
  IsSettled f (n, some b) = b ≡ block_of n.hash

  abbrev pub nodes : List (Slot W B) → List (BlockNode CFilter)
  nodes ss = map (λ (s : Slot W B). s.0) ss

  quiet_spent :
      (f : Filter) (d : List Entry) (os : List OutPoint)
      → All (λ o. ¬ Elem (out_point_entry o) d) os
      → All (λ o. exists_unspent f o ≡ true → Elem (out_point_entry o) d) os
      → All (λ o. exists_unspent f o ≡ false) os
  quiet_spent f d [] a c = tt
  quiet_spent f d (o ∷ os) a c = (
    elim (Bool-cases (exists_unspent f o)) [ inl y ↦ absurd (a.0 (c.0 y)) | inr y ↦ y ],
    quiet_spent f d os a.1 c.1,
  )

  quiet_paid :
      (f : Filter) (d : List Entry) (as' : List Address)
      → All (λ a. (e : Entry) → script_entry a ≡ some e → ¬ Elem e d) as'
      → All
          (λ a. exists_address f a ≡ true → (e : Entry) × (script_entry a ≡ some e) × Elem e d)
          as'
      → All (λ a. exists_address f a ≡ false) as'
  quiet_paid f d [] h c = tt
  quiet_paid f d (a ∷ as') h c = (
    elim (Bool-cases (exists_address f a)) [
      | inl y ↦ let e = c.0 y in absurd (h.0 e.0 e.1 e.2)
      | inr y ↦ y
    ],
    quiet_paid f d as' h.1 c.1,
  )

  module _ (test : BlockNode CFilter → List Entry → Bool) where
    -- The block of a node is valid, and its compact filter, dcrd's promise, has no false negative.
    abbrev pub IsNode : BlockNode CFilter → Type 0
    IsNode n =
        (validate_block W B (block_of n.hash) n.filter ≡ none)
        × ((d : List Entry) → test n d ≡ false → IsAbsent d (block_of n.hash))

    abbrev filled_slot : List Entry → Slot W B → Slot W B
    filled_slot d (n, none) = (n, if test n d then some (block_of n.hash) else none)
    filled_slot d (n, some b) = (n, some b)

    abbrev pub filled : List Entry → List (Slot W B) → List (Slot W B)
    filled d [] = []
    filled d (s ∷ ss) = filled_slot d s ∷ filled d ss

    pub fill-filled :
        (d : List Entry) (ss : List (Slot W B))
        → All IsNode (nodes ss)
        → fill W B test d ss (map block_of (wanted W B test d ss)) ≡ ok (filled d ss)
    unfolding fill fill_head wanted
    fill-filled d [] h = refl
    fill-filled d ((n, some b) ∷ ss) h = rw (fill-filled d ss h.1)
    fill-filled d ((n, none) ∷ ss) h = elim (Bool-cases (test n d)) [
      | inl y ↦ rw (y, fill, y, fill_head, h.0.0, fill-filled d ss h.1) refl
      | inr y ↦ rw (y, fill, y, fill-filled d ss h.1) refl
    ]

    pub filled-nothing :
        (d : List Entry) (ss : List (Slot W B)) → wanted W B test d ss ≡ [] → filled d ss ≡ ss
    unfolding wanted
    filled-nothing d [] h = refl
    filled-nothing d ((n, some b) ∷ ss) h = rw (filled-nothing d ss h)
    filled-nothing d ((n, none) ∷ ss) h = elim (Bool-cases (test n d)) [
      | inl y ↦ absurd (ground (arith, h, y))
      | inr y ↦ rw (y, filled-nothing d ss (ground (arith, h, y)))
    ]

    pub nodes-filled : (d : List Entry) (ss : List (Slot W B)) → nodes (filled d ss) ≡ nodes ss
    nodes-filled d [] = refl
    nodes-filled d ((n, some b) ∷ ss) = ap (λ t. n ∷ t) (nodes-filled d ss)
    nodes-filled d ((n, none) ∷ ss) = ap (λ t. n ∷ t) (nodes-filled d ss)

    filled_slot-IsSettled :
        (f : Filter) (d : List Entry) (s : Slot W B)
        → IsNode s.0
        → IsNear f d s
        → IsSettled f (filled_slot d s)
    filled_slot-IsSettled f d (n, some b) h near = near
    filled_slot-IsSettled f d (n, none) h near = elim (Bool-cases (test n d)) [
      | inl y ↦ rw y refl
      | inr y ↦ rw y (
        quiet_spent f d (spent_by W (block_of n.hash)) (h.1 d y).0 near.0,
        quiet_paid f d (paid_by W (block_of n.hash)) (h.1 d y).1 near.1,
      )
    ]

    pub filled-IsSettled :
        (f : Filter) (d : List Entry) (ss : List (Slot W B))
        → All IsNode (nodes ss)
        → All (IsNear f d) ss
        → All (IsSettled f) (filled d ss)
    filled-IsSettled f d [] h near = tt
    filled-IsSettled f d (s ∷ ss) h near =
        (filled_slot-IsSettled f d s h.0 near.0, filled-IsSettled f d ss h.1 near.1)

  -- A round fetches what it has to, or hands out the peer's error.
  pub fetch_matches-cases :
      (ctx_err : ℕ → Option Error) (blocks : List Hash → Result Error (List Block))
      → ((hs : List Hash) (bs : List Block) → blocks hs ≡ ok bs → bs ≡ map block_of hs)
      → (f : Filter) (d : List Entry) (ss : List (Slot W B))
      → All (IsNode (node_matches W B)) (nodes ss)
      → All (IsNear f d) ss
      → ((out : List (Slot W B)) × (fetch_matches W B ctx_err blocks d ss ≡ ok out)
          × (nodes out ≡ nodes ss)
          × All (IsSettled f) out)
        ⊎ ((e : Error) × (hs : List Hash) × (fetch_matches W B ctx_err blocks d ss ≡ err e)
            × (blocks hs ≡ err e))
  unfolding fetch_matches
  fetch_matches-cases ctx_err blocks get f d ss h near =
      elim (List-cases (wanted W B (node_matches W B) d ss)) [
        | inl e ↦ inl (
          filled (node_matches W B) d ss,
          rw (fetch_matches, e, filled-nothing (node_matches W B) d ss e) refl,
          nodes-filled (node_matches W B) d ss,
          filled-IsSettled (node_matches W B) f d ss h near,
        )
        | inr (x, xs, e) ↦ elim (Result-cases (blocks (x ∷ xs))) [
          | inr (r, b) ↦ inr (r, x ∷ xs, rw (fetch_matches, e, b) refl, b)
          | inl (bs, b) ↦ inl (
            filled (node_matches W B) d ss,
            ground (arith, e, b, get (x ∷ xs) bs b, fill-filled (node_matches W B) d ss h),
            nodes-filled (node_matches W B) d ss,
            filled-IsSettled (node_matches W B) f d ss h near,
          )
        ]
      ]
