-- ===== src/Spv/Loaded.antt =====
-- spv/backend.go, `LoadTxFilter`: the wallet's filter and the data that compact filters are matched
-- against are built together. They are nil, here none, until the first call.
use btclibwallet.Prelude.{
  ◌≡◌, ◌∙◌, inl, inr, refl, subst, Bool, true, false, Option, none, some, List, [], ◌∷◌, ◌++◌, Elem,
  here, Elem-append_left, Elem-append_right, arith, Bool-cases, Option-cases,
}
use btclibwallet.Spv.{OutPoint, Tx, Block, out_point_eq, eq_of_out_point_eq}
use btclibwallet.Spv.Rescan.{Watch, IsWatch, State, mark, add_out_point, rescan_block}
use btclibwallet.Spv.Filters.{rescan_block-kept}

module _ (W : Watch) where
  open W use {
    Filter, Address, Entry, exists_address, exists_unspent, add_unspent, new_rescan_filter,
    add_address, out_point_entry, script_entry,
  }

  unfoldable pub load_addrs : List Address → Filter × List Entry → Filter × List Entry
  load_addrs [] s = s
  load_addrs (a ∷ addrs) s = elim (script_entry a) [
    | none ↦ load_addrs addrs s
    | some e ↦ load_addrs addrs (add_address s.0 a, s.1 ++ e ∷ [])
  ]

  unfoldable pub load_out_points : List OutPoint → Filter × List Entry → Filter × List Entry
  load_out_points [] s = s
  load_out_points (o ∷ os) s = load_out_points os (add_unspent s.0 o, s.1 ++ out_point_entry o ∷ [])

  unfoldable pub start_filter : Bool → Option (Filter × List Entry) → Filter × List Entry
  start_filter true s = (new_rescan_filter, [])
  start_filter false none = (new_rescan_filter, [])
  start_filter false (some s) = s

  unfoldable pub load_tx_filter :
      Bool → List Address → List OutPoint → Option (Filter × List Entry) → Filter × List Entry
  load_tx_filter reload addrs outpoints s =
      load_out_points outpoints (load_addrs addrs (start_filter reload s))

  -- What calls of LoadTxFilter and rescans of blocks make of the filter and the data.
  pub data Reached : Filter × List Entry → Type 0 where
    first_load :
        (reload : Bool) (addrs : List Address) (os : List OutPoint)
        → Reached (load_tx_filter reload addrs os none)
    next_load :
        {s : Filter × List Entry} (reload : Bool) (addrs : List Address) (os : List OutPoint)
        → Reached s
        → Reached (load_tx_filter reload addrs os (some s))
    block_rescan :
        {s : Filter × List Entry} (b : Block)
        → Reached s
        → Reached ((rescan_block W b s.0 s.1).filter, (rescan_block W b s.0 s.1).filter_data)

  -- All that the filter has is in the data.
  pub record IsIndexed (s : Filter × List Entry) : Type 0 where
    pub unspent : (o : OutPoint) → exists_unspent s.0 o ≡ true → Elem (out_point_entry o) s.1
    pub address :
        (a : Address)
        → exists_address s.0 a ≡ true
        → (e : Entry) × (script_entry a ≡ some e) × Elem e s.1

  module _ (w : IsWatch W) where
    new-IsIndexed : IsIndexed (new_rescan_filter, [])
    new-IsIndexed = record {
      unspent = λ o h. absurd (ground (arith, h, w.exists_unspent-new o));
      address = λ a h. absurd (ground (arith, h, w.exists_address-new a));
    }

    add_address-IsIndexed :
        (f : Filter) (d : List Entry) (a : Address) (e : Entry)
        → script_entry a ≡ some e
        → IsIndexed (f, d)
        → IsIndexed (add_address f a, d ++ e ∷ [])
    add_address-IsIndexed f d a e s x = record {
      unspent = λ o h.
          Elem-append_left (e ∷ [])
            (x.unspent o (ground (arith, h, w.exists_unspent-add_address f a o)));
      address = λ b h. elim (w.exists_address-add_address f a b h) [
        | inl same ↦ (e, same ∙ s, Elem-append_right d here)
        | inr old ↦ let i = x.address b old in (i.0, i.1, Elem-append_left (e ∷ []) i.2)
      ];
    }

    add_unspent-IsIndexed :
        (f : Filter) (d : List Entry) (o : OutPoint)
        → IsIndexed (f, d)
        → IsIndexed (add_unspent f o, d ++ out_point_entry o ∷ [])
    add_unspent-IsIndexed f d o x = record {
      unspent = λ p h. elim (Bool-cases (out_point_eq o p)) [
        | inl y ↦
            subst (λ q. Elem (out_point_entry q) (d ++ out_point_entry o ∷ []))
              (eq_of_out_point_eq o p y) (Elem-append_right d here)
        | inr n ↦
            Elem-append_left (out_point_entry o ∷ [])
              (x.unspent p (ground (arith, h, n, w.exists_unspent-add_unspent f o p)))
      ];
      address = λ a h.
          let i = x.address a (ground (arith, h, w.exists_address-add_unspent f o a)) in
          (i.0, i.1, Elem-append_left (out_point_entry o ∷ []) i.2);
    }

    load_addrs-IsIndexed :
        (addrs : List Address) (s : Filter × List Entry)
        → IsIndexed s
        → IsIndexed (load_addrs addrs s)
    unfolding load_addrs
    load_addrs-IsIndexed [] s x = x
    load_addrs-IsIndexed (a ∷ addrs) (f, d) x = elim (Option-cases (script_entry a)) [
      | inl n ↦ rw (load_addrs, n) (load_addrs-IsIndexed addrs (f, d) x)
      | inr (e, y) ↦
          rw (load_addrs, y)
            (load_addrs-IsIndexed addrs (add_address f a, d ++ e ∷ [])
              (add_address-IsIndexed f d a e y x))
    ]

    load_out_points-IsIndexed :
        (os : List OutPoint) (s : Filter × List Entry)
        → IsIndexed s
        → IsIndexed (load_out_points os s)
    unfolding load_out_points
    load_out_points-IsIndexed [] s x = x
    load_out_points-IsIndexed (o ∷ os) (f, d) x =
        load_out_points-IsIndexed os (add_unspent f o, d ++ out_point_entry o ∷ [])
          (add_unspent-IsIndexed f d o x)

    start_filter-IsIndexed :
        (reload : Bool) (s : Option (Filter × List Entry))
        → ((t : Filter × List Entry) → s ≡ some t → IsIndexed t)
        → IsIndexed (start_filter reload s)
    unfolding start_filter
    start_filter-IsIndexed true s h = new-IsIndexed
    start_filter-IsIndexed false none h = new-IsIndexed
    start_filter-IsIndexed false (some t) h = h t refl

    load_tx_filter-IsIndexed :
        (reload : Bool) (addrs : List Address) (os : List OutPoint)
        (s : Option (Filter × List Entry))
        → ((t : Filter × List Entry) → s ≡ some t → IsIndexed t)
        → IsIndexed (load_tx_filter reload addrs os s)
    unfolding load_tx_filter
    load_tx_filter-IsIndexed reload addrs os s h =
        load_out_points-IsIndexed os (load_addrs addrs (start_filter reload s))
          (load_addrs-IsIndexed addrs (start_filter reload s) (start_filter-IsIndexed reload s h))

    mark-IsIndexed :
        (tx : Tx) (s : State W)
        → IsIndexed (s.0.filter, s.0.filter_data)
        → IsIndexed ((mark W tx s).0.filter, (mark W tx s).0.filter_data)
    mark-IsIndexed tx (s, true) x = x
    mark-IsIndexed tx (s, false) x = record { unspent = x.unspent; address = x.address }

    add_out_point-IsIndexed :
        (o : OutPoint) (s : State W)
        → IsIndexed (s.0.filter, s.0.filter_data)
        → IsIndexed ((add_out_point W o s).0.filter, (add_out_point W o s).0.filter_data)
    add_out_point-IsIndexed o (s, b) x = elim (Bool-cases (exists_unspent s.filter o)) [
      | inl y ↦ rw y x
      | inr n ↦ rw n (add_unspent-IsIndexed s.filter s.filter_data o x)
    ]

    rescan_block-IsIndexed :
        (b : Block) (f : Filter) (d : List Entry)
        → IsIndexed (f, d)
        → IsIndexed ((rescan_block W b f d).filter, (rescan_block W b f d).filter_data)
    rescan_block-IsIndexed b f d x =
        rescan_block-kept W (λ t. IsIndexed (t.0.filter, t.0.filter_data)) mark-IsIndexed
          (λ tx o s y. mark-IsIndexed tx (add_out_point W o s) (add_out_point-IsIndexed o s y))
          (λ s y. y) b f d x

    -- At any time the data that compact filters are matched against has the entry of every outpoint
    -- and of every address that the wallet's filter has.
    pub Reached-IsIndexed : (s : Filter × List Entry) → Reached s → IsIndexed s
    Reached-IsIndexed s (first_load reload addrs os) =
        load_tx_filter-IsIndexed reload addrs os none (λ t e. absurd (cc e))
    Reached-IsIndexed s (next_load reload addrs os r) =
        load_tx_filter-IsIndexed reload addrs os (some _)
          (λ t e. subst IsIndexed (ground (arith, e)) (Reached-IsIndexed _ r))
    Reached-IsIndexed s (block_rescan b r) = rescan_block-IsIndexed b _ _ (Reached-IsIndexed _ r)
