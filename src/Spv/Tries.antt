-- ===== src/Spv/Tries.antt =====
-- spv/backend.go, `Rescan`: a round of fetches from the peers that are tried, where the blocks of the
-- hashes are `block_of`.
use btclibwallet.Prelude.{
  ℕ, zero, suc, Option, some, ◌≢◌, ◌≤◌, arith, ◌≡◌, ◌∙◌, refl, ap, sym, subst, Bool, List, [], ◌∷◌,
  map, Result, ok, err, Result-cases, List-cases, inl, inr, ◌⊎◌, All,
}
use btclibwallet.Errors.{Error}
use btclibwallet.Spv.{Hash, Block}
use btclibwallet.Spv.Rescan.{Watch, IsWatch}
use btclibwallet.Spv.Scan.{Blocks, BlockNode, Slot, wanted, fill}
use btclibwallet.Spv.Fetch.{
  IsNode, IsNear, IsSettled, nodes, filled, fill-filled, filled-nothing, nodes-filled,
  filled-IsSettled,
}
use btclibwallet.Spv.Backend.{cfilter_matches, Pick, fetch_from, fetch_round}

-- A peer that answers gives the blocks of the hashes.
abbrev pub IsTruthful : (W : Watch) (B : Blocks W.Entry) → (Hash → Block) → Pick W B → Type 0
IsTruthful W B block_of p =
    (blocks : List Hash → Result Error (List Block)) (hs : List Hash) (bs : List Block)
    → p ≡ ok blocks
    → blocks hs ≡ ok bs
    → bs ≡ map block_of hs

-- A try that settles a round: it gives an error, or its peer has the blocks of all hashes.
abbrev pub IsSettling : (W : Watch) (B : Blocks W.Entry) → (Hash → Block) → Pick W B → Type 0
IsSettling W B block_of p =
    ((e : Error) × (p ≡ err e))
    ⊎ ((blocks : List Hash → Result Error (List Block)) × (p ≡ ok blocks)
        × ((hs : List Hash) → blocks hs ≡ ok (map block_of hs)))

-- At least so many of the tries settle a round.
abbrev pub HasSettling :
    (W : Watch) (B : Blocks W.Entry) → (Hash → Block) → ℕ → List (Pick W B) → Type 0
HasSettling W B block_of zero ps = Unit
HasSettling W B block_of (suc n) [] = ⊥
HasSettling W B block_of (suc n) (p ∷ ps) =
    (IsSettling W B block_of p × HasSettling W B block_of n ps)
    ⊎ HasSettling W B block_of (suc n) ps

pub HasSettling-le :
    (W : Watch) (B : Blocks W.Entry) (block_of : Hash → Block) (m n : ℕ) (ps : List (Pick W B))
    → m ≤ n
    → HasSettling W B block_of n ps
    → HasSettling W B block_of m ps
HasSettling-le W B block_of zero n ps l h = tt
HasSettling-le W B block_of (suc m) zero ps l h = absurd (omega (arith, l))
HasSettling-le W B block_of (suc m) (suc n) [] l h = absurd h
HasSettling-le W B block_of (suc m) (suc n) (p ∷ ps) l (inl (a, h)) =
    inl (a, HasSettling-le W B block_of m n ps (omega (arith, l)) h)
HasSettling-le W B block_of (suc m) (suc n) (p ∷ ps) l (inr h) =
    inr (HasSettling-le W B block_of (suc m) (suc n) ps l h)

-- `Given` are the errors of the tries.
module _ (W : Watch) (B : Blocks W.Entry) (block_of : Hash → Block) (w : IsWatch W)
    (Given : Error → Type 0) where
  open W use {Filter, Entry}
  open B use {CFilter}

  abbrev pub IsPeer : Pick W B → Type 0
  IsPeer p = IsTruthful W B block_of p × ((e : Error) → p ≡ err e → Given e)

  abbrev pub RoundResult : Type 0
  RoundResult = Option (Result Error (List (Slot W B) × List (Pick W B)))

  -- A round that is over: the same nodes, no slot left that has anything of the wallet, and at least
  -- n of the tries that are left settle a round.
  abbrev pub IsRound : ℕ → Filter → List (Slot W B) → RoundResult → Type 0
  IsRound n f ss r =
      ((out : List (Slot W B)) × (ps' : List (Pick W B)) × (r ≡ some (ok (out, ps')))
        × (nodes W B block_of out ≡ nodes W B block_of ss)
        × All (IsSettled W B block_of f) out
        × All IsPeer ps'
        × HasSettling W B block_of n ps')
      ⊎ ((e : Error) × (r ≡ some (err e)) × Given e)

  abbrev test : BlockNode CFilter → List Entry → Bool
  test = cfilter_matches W B

  settling-answers :
      (blocks : List Hash → Result Error (List Block)) (hs : List Hash) (e : Error)
      → IsSettling W B block_of (ok blocks)
      → blocks hs ≢ err e
  settling-answers blocks hs e (inl (x, q)) b = cc q
  settling-answers blocks hs e (inr (blocks', q, all)) b =
      cc (sym b ∙ ap (λ (p : Pick W B). elim p [ ok f ↦ f hs | err x ↦ err x ]) q ∙ all hs)

  fetch_from-IsRound :
      (n : ℕ) (ps : List (Pick W B)) (f : Filter) (d : List Entry) (ss : List (Slot W B))
      → All IsPeer ps
      → HasSettling W B block_of (suc n) ps
      → All (IsNode W B block_of test) (nodes W B block_of ss)
      → All (IsNear W B block_of f d) ss
      → IsRound n f ss (fetch_from W B ps (wanted W B test d ss) d ss)
  unfolding fetch_from
  fetch_from-IsRound n [] f d ss p q h near = absurd q
  fetch_from-IsRound n (err e ∷ ps) f d ss p q h near = inr (e, refl, p.0.1 e refl)
  fetch_from-IsRound n (ok blocks ∷ ps) f d ss p q h near =
      elim (Result-cases (blocks (wanted W B test d ss))) [
        | inr (e, b) ↦ elim q [
          | inl (g, more) ↦ absurd (settling-answers blocks (wanted W B test d ss) e g b)
          | inr more ↦ rw (fetch_from, b) (fetch_from-IsRound n ps f d ss p.1 more h near)
        ]
        | inl (bs, b) ↦
            let all : fill W B test d ss bs ≡ ok (filled W B block_of test d ss) =
              ap (fill W B test d ss) (p.0.0 blocks (wanted W B test d ss) bs refl b)
              ∙ fill-filled W B block_of test d ss h in
            let more : HasSettling W B block_of n ps = elim q [
              | inl (g, m) ↦ m
              | inr m ↦ HasSettling-le W B block_of n (suc n) ps (omega arith) m
            ] in
            inl (
              filled W B block_of test d ss,
              ps,
              rw (fetch_from, b, all) refl,
              nodes-filled W B block_of test d ss,
              filled-IsSettled W B block_of test f d ss h near,
              p.1,
              more,
            )
      ]

  pub fetch_round-IsRound :
      (n : ℕ) (ps : List (Pick W B)) (f : Filter) (d : List Entry) (ss : List (Slot W B))
      → All IsPeer ps
      → HasSettling W B block_of (suc n) ps
      → All (IsNode W B block_of test) (nodes W B block_of ss)
      → All (IsNear W B block_of f d) ss
      → IsRound n f ss (fetch_round W B ps d ss)
  unfolding fetch_round
  fetch_round-IsRound n ps f d ss p q h near = elim (List-cases (wanted W B test d ss)) [
    | inl e ↦
        let settled =
          subst (All (IsSettled W B block_of f)) (filled-nothing W B block_of test d ss e)
            (filled-IsSettled W B block_of test f d ss h near) in
        inl (
          ss,
          ps,
          rw (fetch_round, e) refl,
          refl,
          settled,
          p,
          HasSettling-le W B block_of n (suc n) ps (omega arith) q,
        )
    | inr (x, xs, e) ↦
        let same : fetch_round W B ps d ss ≡ fetch_from W B ps (wanted W B test d ss) d ss =
          rw (fetch_round, e) refl in
        subst (IsRound n f ss) (sym same) (fetch_from-IsRound n ps f d ss p q h near)
  ]
