-- ===== src/Txauthor/Destinations.antt =====
-- The list of destinations, and the sum of their amounts.
use btclibwallet.Prelude.{
  ℕ, zero, suc, ◌+◌, ◌^◌, ◌<◌, ◌≤◌, ◌≡◌, refl, some, List, [], ◌∷◌, ◌++◌, All, ltb, if◌then◌else◌,
  length, take, drop, get_elem?, arith, Bool-cases, inl, inr,
}
use btclibwallet.Prelude.Int.{pos, pos_part, neg_part, ◌+ℤ◌, i64_fits}
use btclibwallet.Txauthor.{
  TxAuthor, Destination, remove_send_destination, send_destination, sum_amounts, total_send_amount,
}

module _ {X : Type 0} where
  get-removed :
      (xs : List X) (n j : ℕ)
      → n < length xs
      → get_elem? (take n xs ++ drop (suc n) xs) j
        ≡ (if ltb j n then get_elem? xs j else get_elem? xs (suc j))
  get-removed [] n j h = absurd (omega arith)
  get-removed (x ∷ xs) zero j h = ground arith
  get-removed (x ∷ xs) (suc n) zero h = ground arith
  get-removed (x ∷ xs) (suc n) (suc j) h = ground (arith, get-removed xs n j (omega arith))

-- Removing a destination that is there moves the later ones one place up and leaves the
-- earlier ones; with no destination at the index, nothing is removed.
pub get-remove_send_destination :
    (tx : TxAuthor) (n j : ℕ)
    → (tx' : TxAuthor) × (remove_send_destination tx (pos n) ≡ some tx')
      × (n < length tx.destinations
          → send_destination tx' j
            ≡ (if ltb j n then send_destination tx j else send_destination tx (suc j)))
      × (length tx.destinations ≤ n → tx' ≡ tx)
unfolding remove_send_destination
get-remove_send_destination tx n j = elim (Bool-cases (ltb n (length tx.destinations))) [
  | inl y ↦ (
    record tx { destinations = take n tx.destinations ++ drop (suc n) tx.destinations },
    ground (arith, y),
    λ h. get-removed tx.destinations n j h,
    λ h. absurd (ground (arith, y)),
  )
  | inr y ↦ (tx, ground (arith, y), λ h. absurd (ground (arith, y)), λ h. refl)
]

abbrev pub total : List Destination → ℕ
total [] = 0
total (d ∷ ds) = pos_part d.atom_amount + total ds

sum_amounts-total :
    (a : ℕ) (ds : List Destination)
    → All (λ d. neg_part d.atom_amount ≡ 0) ds
    → a + total ds < 2 ^ 63
    → sum_amounts (pos a) ds ≡ pos (a + total ds)
unfolding sum_amounts ◌+ℤ◌
sum_amounts-total a [] h k = ground arith
sum_amounts-total a (d ∷ ds) (h, hs) k = ground (
  arith,
  i64_fits (pos a +ℤ d.atom_amount),
  sum_amounts-total (a + pos_part d.atom_amount) ds hs,
  sum_amounts-total a ds hs,
)

-- `TotalSendAmount` is the sum of all amounts, those of the destinations that take the maximum
-- included, if no amount is negative and the sum fits an int64.
pub total_send_amount_lem :
    (tx : TxAuthor)
    → All (λ d. neg_part d.atom_amount ≡ 0) tx.destinations
    → total tx.destinations < 2 ^ 63
    → total_send_amount tx ≡ pos (total tx.destinations)
unfolding total_send_amount
total_send_amount_lem tx h k = ground (arith, sum_amounts-total 0 tx.destinations h)
