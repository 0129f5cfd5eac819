-- ===== src/Spv/TxInvs.antt =====
-- `handleTxInvs` of spv/sync.go: announced transactions are fetched once, and those that are a
-- wallet's are given to it. Wallets are in the order in which the map is iterated; the cache of seen
-- transactions (lru) is a parameter.
use btclibwallet.Prelude.{
  ℕ, zero, suc, Bool, true, false, Option, none, some, List, [], ◌∷◌, ◌++◌, map, Result, ok, err,
  if◌then◌else◌, ◌≡◌, inl, inr, refl, drop, length, Elem, here, there, Elem-append, Elem-cases,
  Bool-cases, arith, subst, sym,
}
use btclibwallet.Errors.{Error}
use btclibwallet.Spv.{Hash, Tx}
use btclibwallet.Spv.Rescan.{Watch, relevant_tx, relevant_txs, filter_relevant}

-- What `rp.Transactions` returns: all, or a NotExist error with nil for those not found, or an error.
pub data Answer : Type 0 where
  found_all : List Tx → Answer
  some_missing : List (Option Tx) → Answer
  failed : Error → Answer

pub data Event : Type 0 where
  accept_mempool_tx : ℕ → Tx → Event
  mempool_txs : ℕ → List Tx → Event

-- Processed when a wallet has no rescan point, unless an error comes first.
unfoldable pub is_processed : List (Result Error (Option Hash)) → Bool
is_processed [] = false
is_processed (err e ∷ ps) = false
is_processed (ok none ∷ ps) = true
is_processed (ok (some h) ∷ ps) = is_processed ps

-- The found transactions with their hashes.
unfoldable pub remove_not_found : List (Option Tx) → List Hash → List Tx × List Hash
remove_not_found [] hs = ([], [])
remove_not_found (t ∷ ts) [] = ([], [])
remove_not_found (none ∷ ts) (h ∷ hs) = remove_not_found ts hs
remove_not_found (some t ∷ ts) (h ∷ hs) =
    (t ∷ (remove_not_found ts hs).0, h ∷ (remove_not_found ts hs).1)

module _ (W : Watch) where
  open W use {Filter}

  -- Each wallet filters the array as the wallet before it has left it.
  unfoldable pub save_relevant : List (ℕ × Filter) → List Tx → List Event
  save_relevant [] txs = []
  save_relevant ((id, f) ∷ ws) txs =
      map (accept_mempool_tx id) (filter_relevant W f txs).0
      ++ mempool_txs id (filter_relevant W f txs).0 ∷ save_relevant ws (filter_relevant W f txs).1

  module _ (Cache : Type 0) (contains : Cache → Hash → Bool) (add : Cache → Hash → Cache) where
    unfoldable pub unseen_of : Cache → List Hash → List Hash
    unseen_of c [] = []
    unseen_of c (h ∷ hs) = if contains c h then unseen_of c hs else h ∷ unseen_of c hs

    unfoldable pub add_seen : Cache → List Hash → Cache
    add_seen c [] = c
    add_seen c (h ∷ hs) = add_seen (add c h) hs

    unfoldable pub handle_tx_invs :
        List (Result Error (Option Hash))
        → (List Hash → Answer)
        → List (ℕ × Filter)
        → List Hash
        → Cache
        → Cache × List Event
    handle_tx_invs points transactions ws hashes seen =
        if is_processed points
        then elim (unseen_of seen hashes) [
          | [] ↦ (seen, [])
          | h ∷ hs ↦ elim (transactions (h ∷ hs)) [
            | failed e ↦ (seen, [])
            | found_all txs ↦ (add_seen seen (h ∷ hs), save_relevant ws txs)
            | some_missing ts ↦
                let r = remove_not_found ts (h ∷ hs) in (add_seen seen r.1, save_relevant ws r.0)
          ]
        ]
        else (seen, [])

  relevant_txs-Elem :
      (f : Filter) (txs : List Tx) (tx : Tx)
      → Elem tx (relevant_txs W f txs)
      → Elem tx txs × (relevant_tx W f tx ≡ true)
  unfolding relevant_txs
  relevant_txs-Elem f [] tx e = elim e [ ]
  relevant_txs-Elem f (t ∷ ts) tx e = elim (Bool-cases (relevant_tx W f t)) [
    | inl y ↦ elim (Elem-cases (subst (Elem tx) (ground (arith, y)) e)) [
      | inl same ↦ (
        subst (λ u. Elem tx (u ∷ ts)) (sym same) here,
        subst (λ u. relevant_tx W f u ≡ true) same y,
      )
      | inr later ↦ let i = relevant_txs-Elem f ts tx later in (there i.0, i.1)
    ]
    | inr n ↦
        let i = relevant_txs-Elem f ts tx (subst (Elem tx) (ground (arith, n)) e) in
        (there i.0, i.1)
  ]

  relevant_txs-keeps :
      (f : Filter) (txs : List Tx) (tx : Tx)
      → Elem tx txs
      → relevant_tx W f tx ≡ true
      → Elem tx (relevant_txs W f txs)
  unfolding relevant_txs
  relevant_txs-keeps f (t ∷ ts) tx e y = elim (Elem-cases e) [
    | inl same ↦ subst (Elem tx) (ground (arith, y, same)) (here {xs = relevant_txs W f ts})
    | inr later ↦
        let i = relevant_txs-keeps f ts tx later y in
        elim (Bool-cases (relevant_tx W f t)) [
          | inl u ↦ subst (Elem tx) (ground (arith, u)) (there {x = t} i)
          | inr u ↦ subst (Elem tx) (ground (arith, u)) i
        ]
  ]
  relevant_txs-keeps f [] tx e y = elim e [ ]

  Elem-drop : (n : ℕ) (txs : List Tx) (tx : Tx) → Elem tx (drop n txs) → Elem tx txs
  Elem-drop zero txs tx e = e
  Elem-drop (suc n) [] tx e = elim e [ ]
  Elem-drop (suc n) (t ∷ ts) tx e = there (Elem-drop n ts tx e)

  -- What a wallet's filtering leaves in the array was there.
  filter_relevant-Elem :
      (f : Filter) (txs : List Tx) (tx : Tx) → Elem tx (filter_relevant W f txs).1 → Elem tx txs
  unfolding filter_relevant
  filter_relevant-Elem f txs tx e = elim (Elem-append (relevant_txs W f txs) e) [
    | inl l ↦ (relevant_txs-Elem f txs tx l).0
    | inr r ↦ Elem-drop (length (relevant_txs W f txs)) txs tx r
  ]

  accepted_head :
      (id j : ℕ) (txs : List Tx) (tx : Tx)
      → Elem (accept_mempool_tx id tx) (map (accept_mempool_tx j) txs)
      → (id ≡ j) × Elem tx txs
  accepted_head id j [] tx e = elim e [ ]
  accepted_head id j (t ∷ ts) tx e = elim (Elem-cases e) [
    | inl same ↦ (ground (arith, same), subst (λ u. Elem tx (u ∷ ts)) (ground (arith, same)) here)
    | inr later ↦ let i = accepted_head id j ts tx later in (i.0, there i.1)
  ]

  -- A wallet is given fetched transactions only, and only those that its filter finds relevant.
  pub save_relevant-Elem :
      (ws : List (ℕ × Filter)) (txs : List Tx) (id : ℕ) (tx : Tx)
      → Elem (accept_mempool_tx id tx) (save_relevant ws txs)
      → Elem tx txs × (f : Filter) × Elem (id, f) ws × (relevant_tx W f tx ≡ true)
  unfolding save_relevant filter_relevant
  save_relevant-Elem [] txs id tx e = elim e [ ]
  save_relevant-Elem ((j, f) ∷ ws) txs id tx e =
      elim (Elem-append (map (accept_mempool_tx j) (relevant_txs W f txs)) e) [
        | inl l ↦
            let i = accepted_head id j (relevant_txs W f txs) tx l in
            let k = relevant_txs-Elem f txs tx i.1 in
            (k.0, f, subst (λ n. Elem (n, f) ((j, f) ∷ ws)) (sym i.0) here, k.1)
        | inr r ↦ elim (Elem-cases r) [
          | inl bad ↦ absurd (cc bad)
          | inr later ↦
              let i = save_relevant-Elem ws (filter_relevant W f txs).1 id tx later in
              (filter_relevant-Elem f txs tx i.0, i.1, there i.2, i.3)
        ]
      ]

  -- Of two fetched transactions of which the first wallet wants the second only, the second wallet
  -- gets nothing, also where the first transaction is its own, as long as it does not want the
  -- second: the first wallet's filtering has written the second over the first.
  pub save_relevant-lost :
      (i j : ℕ) (f g : Filter) (a b : Tx)
      → relevant_tx W f a ≡ false
      → relevant_tx W f b ≡ true
      → relevant_tx W g b ≡ false
      → save_relevant ((i, f) ∷ (j, g) ∷ []) (a ∷ b ∷ [])
        ≡ accept_mempool_tx i b ∷ mempool_txs i (b ∷ []) ∷ mempool_txs j [] ∷ []
  unfolding save_relevant filter_relevant relevant_txs
  save_relevant-lost i j f g a b fa fb gb = rw (fa, fb, gb) refl
