-- ===== src/Spv/Found.antt =====
-- spv/rescan.go: a transaction is matched once if it is the wallet's, and not otherwise.
use btclibwallet.Prelude.{
  ℕ, ◌+◌, ◌≡◌, ◌∙◌, refl, ap, Bool, true, false, List, [], ◌∷◌, ◌++◌, arith, if◌then◌else◌, ◌||◌,
  ◌&&◌, not, Bool-cases, inl, inr,
}
use btclibwallet.Spv.{OutPoint, TxOut, Tx}
use btclibwallet.Spv.Rescan.{
  Watch, IsWatch, Check, State, mark, check_inputs, add_out_point, check_addrs, addrs_of,
  check_outputs, spent, check_transaction, any_address, any_unspent, any_output,
}

module _ (W : Watch) where
  open W use {Filter, Address, Entry, exists_address, exists_unspent}

  -- The matches and the flag, once a test of the transaction is done.
  abbrev tested : Bool → Tx → List Tx × Bool → List Tx × Bool
  tested b tx (m, added) = if b && not added then (m ++ tx ∷ [], true) else (m, added)

  abbrev view : State W → List Tx × Bool
  view s = (s.0.matches, s.1)

  -- The filter has the addresses that f has.
  abbrev SameAddresses : Filter → State W → Type 0
  SameAddresses f s = (a : Address) → exists_address s.0.filter a ≡ exists_address f a

  view-mark : (tx : Tx) (s : State W) → view (mark W tx s) ≡ tested true tx (view s)
  view-mark tx (s, true) = refl
  view-mark tx (s, false) = refl

  tested-true :
      (b : Bool) (tx : Tx) (v : List Tx × Bool) → tested b tx (tested true tx v) ≡ tested true tx v
  tested-true b tx (m, added) = ground arith

  filter-mark : (tx : Tx) (s : State W) → (mark W tx s).0.filter ≡ s.0.filter
  filter-mark tx (s, true) = refl
  filter-mark tx (s, false) = refl

  check_inputs-view :
      (tx : Tx) (os : List OutPoint) (s : State W)
      → (view (check_inputs W tx os s) ≡ tested (any_unspent W s.0.filter os) tx (view s))
        × ((check_inputs W tx os s).0.filter ≡ s.0.filter)
  unfolding check_inputs any_unspent
  check_inputs-view tx [] s = (ground arith, refl)
  check_inputs-view tx (o ∷ os) s = elim (Bool-cases (exists_unspent s.0.filter o)) [
    | inl y ↦ rw y (
        let i = check_inputs-view tx os (mark W tx s) in
        (
          i.0
              ∙ ap (tested (any_unspent W (mark W tx s).0.filter os) tx) (view-mark tx s)
              ∙ tested-true _ tx (view s),
          i.1 ∙ filter-mark tx s,
        ))
    | inr n ↦ rw n (check_inputs-view tx os s)
  ]

  or_if : (b c : Bool) → (b || c) ≡ (if b then true else c)
  or_if b c = ground arith

  first_tested :
      (b : Bool) (tx : Tx) (m : List Tx)
      → (tested b tx (m, false)).0 ≡ (if b then m ++ tx ∷ [] else m)
  first_tested b tx m = ground arith

  module _ (w : IsWatch W) where
    added_view :
        (f : Filter) (tx : Tx) (o : OutPoint) (s : State W)
        → SameAddresses f s
        → (view (mark W tx (add_out_point W o s)) ≡ tested true tx (view s))
          × SameAddresses f (mark W tx (add_out_point W o s))
    added_view f tx o (s, b) h = elim (Bool-cases (exists_unspent s.filter o)) [
      | inl y ↦
          rw y
            (view-mark tx (s, b), λ a. ap (λ x. exists_address x a) (filter-mark tx (s, b)) ∙ h a)
      | inr n ↦ rw n (
        view-mark tx _,
        λ a.
            ap (λ x. exists_address x a) (filter-mark tx _)
            ∙ w.exists_address-add_unspent s.filter o a
            ∙ h a,
      )
    ]

    check_addrs-view :
        (f : Filter) (tx : Tx) (o : OutPoint) (addrs : List Address) (s : State W)
        → SameAddresses f s
        → (view (check_addrs W tx o addrs s) ≡ tested (any_address W f addrs) tx (view s))
          × SameAddresses f (check_addrs W tx o addrs s)
    unfolding check_addrs any_address
    check_addrs-view f tx o [] s h = (ground arith, h)
    check_addrs-view f tx o (a ∷ addrs) s h = elim (Bool-cases (exists_address f a)) [
      | inl y ↦
          rw (h a ∙ y, y)
            (let k = added_view f tx o s h in
              let i = check_addrs-view f tx o addrs (mark W tx (add_out_point W o s)) k.1 in
              (i.0 ∙ ap (tested (any_address W f addrs) tx) k.0 ∙ tested-true _ tx (view s), i.1))
      | inr n ↦ rw (h a ∙ n, n) (check_addrs-view f tx o addrs s h)
    ]

    tested-tested :
        (b c : Bool) (tx : Tx) (v : List Tx × Bool)
        → tested c tx (tested b tx v) ≡ tested (b || c) tx v
    tested-tested true c tx v = tested-true c tx v
    tested-tested false c tx (m, added) = refl

    check_outputs-view :
        (f : Filter) (tx : Tx) (tree i : ℕ) (ts : List TxOut) (s : State W)
        → SameAddresses f s
        → view (check_outputs W tx tree i ts s) ≡ tested (any_output W f ts) tx (view s)
    unfolding check_outputs any_output
    check_outputs-view f tx tree i [] s h = ground arith
    check_outputs-view f tx tree i (t ∷ ts) s h =
        let k =
          check_addrs-view f tx (record { hash = tx.hash; index = i; tree = tree }) (addrs_of W t) s
            h in
        check_outputs-view f tx tree (i + 1) ts _ k.1
        ∙ ap (tested (any_output W f ts) tx) k.0
        ∙ tested-tested (any_address W f (addrs_of W t)) (any_output W f ts) tx (view s)
        ∙ ap (λ b. tested b tx (view s))
            (or_if (any_address W f (addrs_of W t)) (any_output W f ts))

    -- A transaction is appended to the matches once if it spends an outpoint of the wallet's filter,
    -- by an input that references an output, or pays one of its addresses; otherwise the matches
    -- stay as they are.
    pub check_transaction-matches :
        (i tree : ℕ) (tx : Tx) (s : Check Filter Entry)
        → (check_transaction W i tree tx s).matches ≡ (
            if any_unspent W s.filter (spent W i tree tx) || any_output W s.filter tx.tx_out
            then s.matches ++ tx ∷ []
            else s.matches)
    unfolding check_transaction
    check_transaction-matches i tree tx s =
        let k = check_inputs-view tx (spent W i tree tx) (s, false) in
        let b = any_unspent W s.filter (spent W i tree tx) in
        let c = any_output W s.filter tx.tx_out in
        ap (λ (v : List Tx × Bool). v.0)
          (check_outputs-view s.filter tx tree 0 tx.tx_out
              (check_inputs W tx (spent W i tree tx) (s, false))
              (λ a. ap (λ x. exists_address x a) k.1)
            ∙ ap (tested c tx) k.0
            ∙ tested-tested b c tx (s.matches, false))
        ∙ first_tested (b || c) tx s.matches
