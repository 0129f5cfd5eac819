-- ===== src/Spv/Filters.antt =====
-- spv/rescan.go: how a rescan changes the wallet's filter. What holds of a state and is kept by a
-- match and by a new outpoint holds after the rescan of a block.
use btclibwallet.Prelude.{
  ℕ, ◌+◌, ◌≡◌, ◌≢◌, ◌⊎◌, ◌∙◌, subst, inl, inr, refl, Bool, true, false, List, [], ◌∷◌, ◌++◌,
  Bool-cases, arith, Elem, here, Elem-append_left, Elem-append_right, if◌then◌else◌,
}
use btclibwallet.Spv.{
  OutPoint, TxOut, Tx, Block, tree_regular, tree_stake, out_point_eq, eq_of_out_point_eq,
}
use btclibwallet.Spv.Rescan.{
  Watch, IsWatch, Check, State, mark, check_inputs, add_out_point, check_addrs, addrs_of,
  check_outputs, spent, check_transaction, rescan_check_transactions, rescan_block,
}

module _ (W : Watch) where
  open W use {Filter, Address, Entry, exists_address, exists_unspent, add_unspent, out_point_entry}

  kept_if : (P : State W → Type 0) (b : Bool) (x y : State W) → P x → P y → P (if b then x else y)
  kept_if P true x y px py = px
  kept_if P false x y px py = py

  module _ (P : State W → Type 0) (by_mark : (tx : Tx) (s : State W) → P s → P (mark W tx s))
      (by_add : (tx : Tx) (o : OutPoint) (s : State W) → P s → P (mark W tx (add_out_point W o s)))
      (by_next : (s : State W) → P s → P (s.0, false)) where
    check_inputs-kept :
        (tx : Tx) (os : List OutPoint) (s : State W) → P s → P (check_inputs W tx os s)
    unfolding check_inputs
    check_inputs-kept tx [] s p = p
    check_inputs-kept tx (o ∷ os) s p =
        kept_if P (exists_unspent s.0.filter o) (check_inputs W tx os (mark W tx s))
          (check_inputs W tx os s) (check_inputs-kept tx os (mark W tx s) (by_mark tx s p))
          (check_inputs-kept tx os s p)

    check_addrs-kept :
        (tx : Tx) (o : OutPoint) (addrs : List Address) (s : State W)
        → P s
        → P (check_addrs W tx o addrs s)
    unfolding check_addrs
    check_addrs-kept tx o [] s p = p
    check_addrs-kept tx o (a ∷ addrs) s p =
        kept_if P (exists_address s.0.filter a)
          (check_addrs W tx o addrs (mark W tx (add_out_point W o s))) (check_addrs W tx o addrs s)
          (check_addrs-kept tx o addrs (mark W tx (add_out_point W o s)) (by_add tx o s p))
          (check_addrs-kept tx o addrs s p)

    check_outputs-kept :
        (tx : Tx) (tree i : ℕ) (ts : List TxOut) (s : State W)
        → P s
        → P (check_outputs W tx tree i ts s)
    unfolding check_outputs
    check_outputs-kept tx tree i [] s p = p
    check_outputs-kept tx tree i (t ∷ ts) s p =
        check_outputs-kept tx tree (i + 1) ts
          (check_addrs W tx (record { hash = tx.hash; index = i; tree = tree }) (addrs_of W t) s)
          (check_addrs-kept tx (record { hash = tx.hash; index = i; tree = tree }) (addrs_of W t) s
            p)

    pub rescan_check_transactions-kept :
        (i tree : ℕ) (txs : List Tx) (s : Check Filter Entry)
        → P (s, false)
        → P (rescan_check_transactions W i tree txs s, false)
    unfolding rescan_check_transactions check_transaction
    rescan_check_transactions-kept i tree [] s p = p
    rescan_check_transactions-kept i tree (tx ∷ txs) s p =
        rescan_check_transactions-kept (i + 1) tree txs (check_transaction W i tree tx s) (
          by_next
            (check_outputs W tx tree 0 tx.tx_out (check_inputs W tx (spent W i tree tx) (s, false)))
            (check_outputs-kept tx tree 0 tx.tx_out
              (check_inputs W tx (spent W i tree tx) (s, false))
              (check_inputs-kept tx (spent W i tree tx) (s, false) p)))

    pub rescan_block-kept :
        (b : Block) (f : Filter) (d : List Entry)
        → P (record { filter = f; filter_data = d; fadded = []; matches = [] }, false)
        → P (rescan_block W b f d, false)
    unfolding rescan_block
    rescan_block-kept b f d p =
        rescan_check_transactions-kept 0 tree_regular b.transactions
          (rescan_check_transactions W 0 tree_stake b.s_transactions
            (record { filter = f; filter_data = d; fadded = []; matches = [] }))
          (rescan_check_transactions-kept 0 tree_stake b.s_transactions
            (record { filter = f; filter_data = d; fadded = []; matches = [] }) p)

  -- What the state may be, that began with the filter f: nothing is lost, what is new has its entry
  -- among those added, no address is new, and the filter is f while nothing was added.
  pub record IsGrown (f : Filter) (s : State W) : Type 0 where
    pub keeps : (o : OutPoint) → exists_unspent f o ≡ true → exists_unspent s.0.filter o ≡ true
    pub new_added :
        (o : OutPoint)
        → exists_unspent s.0.filter o ≡ true
        → (exists_unspent f o ≡ true) ⊎ Elem (out_point_entry o) s.0.fadded
    pub same_addresses : (a : Address) → exists_address s.0.filter a ≡ exists_address f a
    pub none_added : s.0.fadded ≡ [] → s.0.filter ≡ f

  append-not_empty {ℓ} : {A : Type ℓ} (xs : List A) (x : A) → xs ++ x ∷ [] ≢ []
  append-not_empty [] x h = cc h
  append-not_empty (y ∷ ys) x h = cc h

  mark-IsGrown : (f : Filter) (tx : Tx) (s : State W) → IsGrown f s → IsGrown f (mark W tx s)
  mark-IsGrown f tx (s, true) g = g
  mark-IsGrown f tx (s, false) g = record {
    keeps = g.keeps;
    new_added = g.new_added;
    same_addresses = g.same_addresses;
    none_added = g.none_added;
  }

  module _ (w : IsWatch W) where
    added-IsGrown :
        (f : Filter) (o : OutPoint) (s : Check Filter Entry) (b : Bool)
        → IsGrown f (s, b)
        → IsGrown f (
          record s {
            filter = add_unspent s.filter o;
            filter_data = s.filter_data ++ out_point_entry o ∷ [];
            fadded = s.fadded ++ out_point_entry o ∷ [];
          },
          b,
        )
    added-IsGrown f o s b g = record {
      keeps = λ p h. ground (arith, w.exists_unspent-add_unspent s.filter o p, g.keeps p h);
      new_added = λ p h. elim (Bool-cases (out_point_eq o p)) [
        | inl y ↦ inr (
            subst (λ q. Elem (out_point_entry q) (s.fadded ++ out_point_entry o ∷ []))
              (eq_of_out_point_eq o p y) (Elem-append_right s.fadded here))
        | inr n ↦
            elim (g.new_added p (ground (arith, h, n, w.exists_unspent-add_unspent s.filter o p))) [
              | inl old ↦ inl old
              | inr e ↦ inr (Elem-append_left (out_point_entry o ∷ []) e)
            ]
      ];
      same_addresses = λ a. w.exists_address-add_unspent s.filter o a ∙ g.same_addresses a;
      none_added = λ h. absurd (append-not_empty s.fadded (out_point_entry o) h);
    }

    add_out_point-IsGrown :
        (f : Filter) (tx : Tx) (o : OutPoint) (s : State W)
        → IsGrown f s
        → IsGrown f (mark W tx (add_out_point W o s))
    add_out_point-IsGrown f tx o (s, b) g =
        mark-IsGrown f tx (add_out_point W o (s, b))
          (kept_if (IsGrown f) (exists_unspent s.filter o) _ _ g (added-IsGrown f o s b g))

    -- After the rescan of a block.
    pub rescan_block-IsGrown :
        (b : Block) (f : Filter) (d : List Entry) → IsGrown f (rescan_block W b f d, false)
    rescan_block-IsGrown b f d =
        rescan_block-kept (IsGrown f) (mark-IsGrown f) (add_out_point-IsGrown f)
          (λ s g. record {
            keeps = g.keeps;
            new_added = g.new_added;
            same_addresses = g.same_addresses;
            none_added = g.none_added;
          })
          b f d
          (record {
            keeps = λ o h. h;
            new_added = λ o h. inl h;
            same_addresses = λ a. refl;
            none_added = λ h. refl;
          })

  -- What was added comes with a match.
  abbrev IsMatched : State W → Type 0
  IsMatched s = (s.1 ≡ true → s.0.matches ≢ []) × (s.0.matches ≡ [] → s.0.fadded ≡ [])

  mark-IsMatched :
      (tx : Tx) (s : State W) → (s.1 ≡ true → s.0.matches ≢ []) → IsMatched (mark W tx s)
  mark-IsMatched tx (s, true) k = (k, λ h. absurd (k refl h))
  mark-IsMatched tx (s, false) k =
      (λ e. append-not_empty s.matches tx, λ h. absurd (append-not_empty s.matches tx h))

  add_out_point-IsMatched :
      (tx : Tx) (o : OutPoint) (s : State W)
      → IsMatched s
      → IsMatched (mark W tx (add_out_point W o s))
  add_out_point-IsMatched tx o (s, b) k =
      mark-IsMatched tx (add_out_point W o (s, b))
        (kept_if (λ t. t.1 ≡ true → t.0.matches ≢ []) (exists_unspent s.filter o) _ _ k.0 k.0)

  pub rescan_block-matches :
      (b : Block) (f : Filter) (d : List Entry)
      → (rescan_block W b f d).matches ≡ []
      → (rescan_block W b f d).fadded ≡ []
  rescan_block-matches b f d =
      (rescan_block-kept IsMatched (λ tx s k. mark-IsMatched tx s k.0) add_out_point-IsMatched
        (λ s k. (λ e. absurd (ground (arith, e)), k.1)) b f d
        (λ e. absurd (ground (arith, e)), λ h. refl)).1
