-- ===== src/Txauthor/Construct.antt =====
-- What `constructTransaction` hands to dcrwallet.
use btclibwallet.Prelude.{
  ◌≡◌, refl, ap, subst, true, false, Option, none, some, List, [], ◌∷◌, ◌++◌, ok, arith, ◌⊎◌, inl,
  inr, Result-cases, Bool-cases,
}
use btclibwallet.Prelude.Int.{pos, ◌<ℤ◌, ◌≤ℤ◌}
use btclibwallet.Prelude.Bytes.{Bytes}
use btclibwallet.Txauthor.{
  Author, TxAuthor, Destination, TxOut, ChangeSource, Selection, select_default, select_all,
  script_version, pk_script, make_tx_output, make_tx_change_source, Gathered, gather, gather_all,
  is_set, change_source, construct_transaction, finish,
}

none_of : (c : Option ChangeSource) → is_set c ≡ false → c ≡ none
none_of none h = refl
none_of (some c) h = absurd (ground arith)

append_nil : {X : Type 0} (xs : List X) → xs ++ [] ≡ xs
append_nil [] = refl
append_nil (x ∷ xs) = ap (λ t. x ∷ t) (append_nil xs)

append_assoc : {X : Type 0} (xs ys zs : List X) → (xs ++ ys) ++ zs ≡ xs ++ (ys ++ zs)
append_assoc [] ys zs = refl
append_assoc (x ∷ xs) ys zs = ap (λ t. x ∷ t) (append_assoc xs ys zs)

module _ (A : Author) where
  open A use {Wallet, Authored, max_amount, new_unsigned_transaction}

  -- The outputs that pay the destinations, in their order, and the script that takes what is left
  -- if one of them, and only one, takes the maximum.
  pub data Pays : List Destination → List TxOut → Option ChangeSource → Type 0 where
    nobody : Pays [] [] none
    amount :
        (d : Destination) (script : Bytes) (ds : List Destination) (os : List TxOut)
        (c : Option ChangeSource)
        → d.send_max ≡ false
        → pos 0 <ℤ d.atom_amount
        → d.atom_amount ≤ℤ max_amount
        → pk_script A d.address ≡ ok script
        → Pays ds os c
        → Pays
            (d ∷ ds)
            (record { value = d.atom_amount; version = script_version; pk_script = script } ∷ os)
            c
    rest :
        (d : Destination) (script : Bytes) (ds : List Destination) (os : List TxOut)
        → d.send_max ≡ true
        → pk_script A d.address ≡ ok script
        → Pays ds os none
        → Pays (d ∷ ds) os (some (record { script = script; version = script_version }))

  abbrev pub selection_of : Option ChangeSource → Selection
  selection_of none = select_default
  selection_of (some c) = select_all

  gather_amount :
      (d : Destination) (os : List TxOut) (s : Selection) (c : Option ChangeSource) (g : Gathered)
      → d.send_max ≡ false
      → gather A d (os, s, c) ≡ ok g
      → (pos 0 <ℤ d.atom_amount)
        × (d.atom_amount ≤ℤ max_amount)
        × (script : Bytes) × (pk_script A d.address ≡ ok script)
        × (g ≡ (
          os ++ record { value = d.atom_amount; version = script_version; pk_script = script } ∷ [],
          s,
          c,
        ))
  unfolding gather make_tx_output
  gather_amount d os s c g m h = elim (Result-cases (pk_script A d.address)) [
    | inl (script, e) ↦ (ground (arith, e), ground (arith, e), script, e, ground (arith, e))
    | inr (x, e) ↦ absurd (ground (arith, e))
  ]

  gather_max :
      (d : Destination) (os : List TxOut) (s : Selection) (c : Option ChangeSource) (g : Gathered)
      → d.send_max ≡ true
      → gather A d (os, s, c) ≡ ok g
      → (c ≡ none)
        × (script : Bytes) × (pk_script A d.address ≡ ok script)
        × (g ≡ (os, select_all, some (record { script = script; version = script_version })))
  unfolding gather make_tx_change_source
  gather_max d os s c g m h = elim (Result-cases (pk_script A d.address)) [
    | inl (script, e) ↦ (none_of c (ground (arith, e)), script, e, ground (arith, e))
    | inr (x, e) ↦ absurd (ground (arith, e))
  ]

  -- What the loop adds to what it began with.
  abbrev Added : List Destination → Gathered → Gathered → Type 0
  Added ds (os, s, c0) g =
      (new : List TxOut) × (c : Option ChangeSource) × Pays ds new c
      × (((c ≡ none) × (g ≡ (os ++ new, s, c0)))
          ⊎ ((c0 ≡ none)
              × (cs : ChangeSource) × (c ≡ some cs)
              × (g ≡ (os ++ new, select_all, some cs))))

  gather_all-Pays :
      (ds : List Destination) (os : List TxOut) (s : Selection) (c0 : Option ChangeSource)
      (g : Gathered)
      → gather_all A ds (os, s, c0) ≡ ok g
      → Added ds (os, s, c0) g
  unfolding gather_all
  gather_all-Pays [] os s c0 g h = ([], none, nobody, inl (refl, ground (arith, append_nil os)))
  gather_all-Pays (d ∷ ds) os s c0 g h = elim (Result-cases (gather A d (os, s, c0))) [
    | inr (x, e) ↦ absurd (ground (arith, e))
    | inl (g', e) ↦ elim (Bool-cases d.send_max) [
      | inr m ↦
          let (lo, hi, script, p, q) = gather_amount d os s c0 g' m e in
          let o : TxOut = record {
            value = d.atom_amount;
            version = script_version;
            pk_script = script;
          } in
          let (new, c, pays, end') =
            gather_all-Pays ds (os ++ o ∷ []) s c0 g (ground (arith, e, q)) in
          (
            o ∷ new,
            c,
            amount d script ds new c m lo hi p pays,
            subst
                (λ l.
                  ((c ≡ none) × (g ≡ (l, s, c0)))
                  ⊎ ((c0 ≡ none)
                      × (cs : ChangeSource) × (c ≡ some cs)
                      × (g ≡ (l, select_all, some cs))))
                (append_assoc os (o ∷ []) new) end',
          )
      | inl m ↦
          let (z, script, p, q) = gather_max d os s c0 g' m e in
          let x : ChangeSource = record { script = script; version = script_version } in
          let (new, c, pays, end') =
            gather_all-Pays ds os select_all (some x) g (ground (arith, e, q)) in
          elim end' [
            | inl (cn, ge) ↦ (
              new,
              some x,
              rest d script ds new m p (subst (Pays ds new) cn pays),
              inr (z, x, refl, ge),
            )
            | inr more ↦ absurd (ground (arith, more.0))
          ]
    ]
  ]

  -- A `constructTransaction` that succeeds has paid all destinations: there are outputs, in the
  -- destinations' order, of the amount of each that does not take the maximum, which is above 0
  -- and at most the maximal amount, to its script; at most one takes the maximum. If one does,
  -- its script is the change source, all coins are selected, and the author and the wallet are as
  -- they were; if none does, the change source is the author's own.
  pub construct_transaction-Pays :
      (tx tx' : TxAuthor) (w w' : Wallet) (a : Authored)
      → construct_transaction A tx w ≡ (ok a, tx', w')
      → (os : List TxOut) × (((c : ChangeSource) × Pays tx.destinations os (some c)
            × (new_unsigned_transaction w os select_all c ≡ ok a)
            × (tx' ≡ tx)
            × (w' ≡ w))
          ⊎ ((c : ChangeSource) × Pays tx.destinations os none
              × (change_source A tx w ≡ (ok c, tx', w'))
              × (new_unsigned_transaction w' os select_default c ≡ ok a)))
  unfolding construct_transaction finish
  construct_transaction-Pays tx tx' w w' a h =
      elim (Result-cases (gather_all A tx.destinations ([], select_default, none))) [
        | inr (x, e) ↦ absurd (ground (arith, e))
        | inl (g, e) ↦
            let (os, c, pays, end') = gather_all-Pays tx.destinations [] select_default none g e in
            elim end' [
              | inr (z, cs, q, ge) ↦ (
                os,
                inl (
                  cs,
                  subst (Pays tx.destinations os) q pays,
                  ground (arith, e, ge),
                  ground (arith, e, ge),
                  ground (arith, e, ge),
                ),
              )
              | inl (q, ge) ↦ elim (Result-cases (change_source A tx w).0) [
                | inr (x, b) ↦ absurd (ground (arith, e, ge, b))
                | inl (cs, b) ↦ (
                  os,
                  inr (
                    cs,
                    subst (Pays tx.destinations os) q pays,
                    ground (arith, e, ge, b),
                    ground (arith, e, ge, b),
                  ),
                )
              ]
            ]
      ]
