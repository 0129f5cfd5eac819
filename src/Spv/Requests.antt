-- ===== src/Spv/Requests.antt =====
-- spv/sync.go, `getTransactionsByHashes`: a request of distinct hashes is answered.
use btclibwallet.Prelude.{
  append_nil, append_assoc, suc, ◌≡◌, ◌≢◌, inl, inr, true, false, Result, ok, err, Result-cases,
  if◌then◌else◌, none, some, List, [], ◌∷◌, ◌++◌, ◌==◌, length, take, refl, ap, sym, ◌∙◌, subst,
  arith, Elem, here, there, Elem-cases, Bool-cases, Option-cases, take-length-append,
}
use btclibwallet.Errors.{Error}
use btclibwallet.Spv.{Hash, Tx}
use btclibwallet.Spv.GetData.{
  Slice, contents, remove_found, remove_all, Reply, failed, reply, failure, Lookup, look_up,
  get_transactions_by_hashes,
}
use btclibwallet.Spv.Replies.{without, IsDistinct, IsSlice, remove_found-rest}

-- The hashes that are none of the transactions'.
unfoldable pub without_all : List Tx → List Hash → List Hash
without_all [] hs = hs
without_all (tx ∷ txs) hs = without_all txs (without tx.hash hs)

without_all-append :
    (xs ys : List Tx) (hs : List Hash)
    → without_all (xs ++ ys) hs ≡ without_all ys (without_all xs hs)
unfolding without_all
without_all-append [] ys hs = refl
without_all-append (x ∷ xs) ys hs = without_all-append xs ys (without x.hash hs)

without-Elem : (h x : Hash) (xs : List Hash) → Elem x (without h xs) → Elem x xs
unfolding without
without-Elem h x [] e = e
without-Elem h x (y ∷ ys) e = elim (Bool-cases (y == h)) [
  | inl t ↦ there (without-Elem h x ys (subst (Elem x) (ground (arith, t)) e))
  | inr n ↦ elim (Elem-cases (subst (Elem x) {y = y ∷ without h ys} (ground (arith, n)) e)) [
    | inl same ↦ subst (λ u. Elem x (u ∷ ys)) (sym same) here
    | inr later ↦ there (without-Elem h x ys later)
  ]
]

without-IsDistinct : (h : Hash) (xs : List Hash) → IsDistinct xs → IsDistinct (without h xs)
unfolding without
without-IsDistinct h [] d = tt
without-IsDistinct h (x ∷ xs) d = elim (Bool-cases (x == h)) [
  | inl y ↦ rw y (without-IsDistinct h xs d.1)
  | inr n ↦ rw n ((λ e. d.0 (without-Elem h x xs e)), without-IsDistinct h xs d.1)
]

remove_all-step :
    (tx : Tx) (txs : List Tx) (s s' : Slice)
    → remove_found tx.hash s.len 0 s ≡ some s'
    → remove_all (tx ∷ txs) s ≡ remove_all txs s'
unfolding remove_all
remove_all-step tx txs s s' e = rw (remove_all, e) refl

remove_all-rest :
    (txs : List Tx) (s : Slice) (xs : List Hash)
    → IsSlice s xs
    → IsDistinct xs
    → (s' : Slice) × (remove_all txs s ≡ some s')
      × IsSlice s' (without_all txs xs)
      × IsDistinct (without_all txs xs)
unfolding remove_all without_all
remove_all-rest [] s xs i d = (s, refl, i, d)
remove_all-rest (tx ∷ txs) s xs i d =
    let one = remove_found-rest tx.hash [] xs i.0.0 s 0 i.0.1 (omega (arith, i.1)) refl d in
    let more =
      remove_all-rest txs one.0 (without tx.hash xs) one.2 (without-IsDistinct tx.hash xs d) in
    let found = subst (λ n. remove_found tx.hash n 0 s ≡ some one.0) (sym i.1) one.1 in
    (more.0, remove_all-step tx txs s one.0 found ∙ more.1, more.2, more.3)

contents-IsSlice : (s : Slice) (xs : List Hash) → IsSlice s xs → contents s ≡ xs
contents-IsSlice s xs i =
    ap (take s.len) i.0.1 ∙ ap (λ n. take n (xs ++ i.0.0)) i.1 ∙ take-length-append xs i.0.0

no_hashes : (s : Slice) (xs : List Hash) → IsSlice s xs → (s.len == 0) ≡ true → xs ≡ []
no_hashes s [] i e = refl
no_hashes s (x ∷ xs) i e = absurd (ground (arith, i.1, e))

-- What the wallets find, each asked for the hashes that none before it found: their transactions, or
-- the first error that is not of a missing transaction.
unfoldable pub found_by : List Lookup → List Hash → Result Error (List Tx)
found_by [] hs = ok []
found_by (w ∷ ws) [] = ok []
found_by (w ∷ ws) (h ∷ hs) =
    let got = (w (h ∷ hs)).0 in
    elim (failure (w (h ∷ hs)).1) [
      | some e ↦ err e
      | none ↦ elim (found_by ws (without_all got (h ∷ hs))) [
        | err e ↦ err e
        | ok more ↦ ok (got ++ more)
      ]
    ]

abbrev pub answer : List Hash → Result Error (List Tx) → Reply
answer hs (err e) = failed e
answer hs (ok found) = reply found (without_all found hs)

-- What was found before, and what is found then.
abbrev added : List Tx → Result Error (List Tx) → Result Error (List Tx)
added found (err e) = err e
added found (ok more) = ok (found ++ more)

added-append :
    (xs ys : List Tx) (r : Result Error (List Tx)) → added (xs ++ ys) r ≡ added xs (added ys r)
added-append xs ys (err e) = refl
added-append xs ys (ok zs) = ap ok (append_assoc xs ys zs)

found_by-step :
    (w : Lookup) (ws : List Lookup) (hs : List Hash)
    → hs ≢ []
    → failure (w hs).1 ≡ none
    → found_by (w ∷ ws) hs ≡ added (w hs).0 (found_by ws (without_all (w hs).0 hs))
unfolding found_by
found_by-step w ws [] n f = absurd (n refl)
found_by-step w ws (h ∷ hs) n f =
    elim (Result-cases (found_by ws (without_all (w (h ∷ hs)).0 (h ∷ hs)))) [
      | inl (x, e) ↦ rw (found_by, f, e) refl
      | inr (x, e) ↦ rw (found_by, f, e) refl
    ]

found_by-failed :
    (w : Lookup) (ws : List Lookup) (hs : List Hash) (e : Error)
    → hs ≢ []
    → failure (w hs).1 ≡ some e
    → found_by (w ∷ ws) hs ≡ err e
unfolding found_by
found_by-failed w ws [] e n f = absurd (n refl)
found_by-failed w ws (h ∷ hs) e n f = rw (found_by, f) refl

found_by-none : (ws : List Lookup) → found_by ws [] ≡ ok []
unfolding found_by
found_by-none [] = refl
found_by-none (w ∷ ws) = refl

added_nil : (r : Result Error (List Tx)) → added [] r ≡ r
added_nil (err e) = refl
added_nil (ok l) = refl

-- What the loop does once a wallet's hashes are removed.
on_left : List Lookup → List Tx → Slice → Reply
on_left ws found s = let rest = look_up ws found s in if s.len == 0 then reply found [] else rest

on_left-end :
    (ws : List Lookup) (found : List Tx) (s : Slice)
    → (s.len == 0) ≡ true
    → on_left ws found s ≡ reply found []
unfolding on_left
on_left-end ws found s y = rw (on_left, y) refl

on_left-more :
    (ws : List Lookup) (found : List Tx) (s : Slice)
    → (s.len == 0) ≡ false
    → on_left ws found s ≡ look_up ws found s
unfolding on_left
on_left-more ws found s y = rw (on_left, y) refl

look_up-failed :
    (w : Lookup) (ws : List Lookup) (found : List Tx) (s : Slice) (e : Error)
    → failure (w (contents s)).1 ≡ some e
    → look_up (w ∷ ws) found s ≡ failed e
unfolding look_up
look_up-failed w ws found s e f = rw (look_up, f) refl

look_up-on :
    (w : Lookup) (ws : List Lookup) (found : List Tx) (s s' : Slice)
    → failure (w (contents s)).1 ≡ none
    → remove_all (w (contents s)).0 s ≡ some s'
    → look_up (w ∷ ws) found s ≡ on_left ws (found ++ (w (contents s)).0) s'
unfolding look_up on_left
look_up-on w ws found s s' f r = rw (look_up, f, r) refl

hashes_left : (s : Slice) (xs : List Hash) → IsSlice s xs → (s.len == 0) ≡ false → xs ≢ []
hashes_left s [] i e h = absurd (ground (arith, i.1, e))
hashes_left s (x ∷ xs) i e h = cc h

look_up-answer :
    (ws : List Lookup) (found : List Tx) (s : Slice) (hs : List Hash)
    → without_all found hs ≢ []
    → IsSlice s (without_all found hs)
    → IsDistinct (without_all found hs)
    → look_up ws found s ≡ answer hs (added found (found_by ws (without_all found hs)))
unfolding look_up found_by
look_up-answer [] found s hs n i d =
    ap (reply found) (contents-IsSlice s _ i)
    ∙ ap (λ l. reply l (without_all l hs)) (sym (append_nil found))
look_up-answer (w ∷ ws) found s hs n i d =
    let left = without_all found hs in
    let c = contents-IsSlice s left i in
    elim (Option-cases (failure (w left).1)) [
      | inr (e, f) ↦
          look_up-failed w ws found s e (ap (λ l. failure (w l).1) c ∙ f)
          ∙ ap (λ r. answer hs (added found r)) (sym (found_by-failed w ws left e n f))
      | inl f ↦
          let got = (w left).0 in
          let r = remove_all-rest got s left i d in
          let same = without_all-append found got hs in
          let i' = subst (IsSlice r.0) (sym same) r.2 in
          let step =
            look_up-on w ws found s r.0 (ap (λ l. failure (w l).1) c ∙ f)
              (ap (λ l. remove_all (w l).0 s) c ∙ r.1) in
          let whole : answer hs (added (found ++ got) (found_by ws (without_all (found ++ got) hs)))
              ≡ answer hs (added found (found_by (w ∷ ws) left)) =
            ap (λ l. answer hs (added (found ++ got) (found_by ws l))) same
            ∙ ap (answer hs) (added-append found got (found_by ws (without_all got left)))
            ∙ ap (λ x. answer hs (added found x)) (sym (found_by-step w ws left n f)) in
          let got-same : (w (contents s)).0 ≡ got = ap (λ l. (w l).0) c in
          step ∙ ap (λ l. on_left ws (found ++ l) r.0) got-same ∙ elim (Bool-cases (r.0.len == 0)) [
            | inl y ↦
                let empty = same ∙ no_hashes r.0 _ r.2 y in
                on_left-end ws (found ++ got) r.0 y
                ∙ ap (reply (found ++ got)) (sym empty)
                ∙ ap (λ l. reply l (without_all l hs)) (sym (append_nil (found ++ got)))
                ∙ ap (λ x. answer hs (added (found ++ got) x)) (sym (found_by-none ws))
                ∙ ap (λ l. answer hs (added (found ++ got) (found_by ws l))) (sym empty)
                ∙ whole
            | inr y ↦
                let left' : without_all (found ++ got) hs ≢ [] = λ z. hashes_left r.0 _ i' y z in
                on_left-more ws (found ++ got) r.0 y
                ∙ look_up-answer ws (found ++ got) r.0 hs left' i' (subst IsDistinct (sym same) r.3)
                ∙ whole
          ]
    ]

-- A request of distinct hashes does not panic. It is answered as if each wallet in turn were asked
-- for the hashes that no wallet before it found, until there are none: with the first error
-- that is not of a missing transaction, or with all that the wallets found and, in their order,
-- the hashes that are none of the found transactions'.
pub get_transactions_by_hashes-answer :
    (ws : List Lookup) (hs : List Hash)
    → IsDistinct hs
    → get_transactions_by_hashes ws hs ≡ answer hs (found_by ws hs)
unfolding get_transactions_by_hashes without_all
get_transactions_by_hashes-answer ws [] d = ap (answer []) (sym (found_by-none ws))
get_transactions_by_hashes-answer ws (h ∷ hs) d =
    look_up-answer ws [] (record { arr = h ∷ hs; len = suc (length hs) }) (h ∷ hs) (λ e. cc e)
      (([], sym (append_nil (h ∷ hs))), refl) d
    ∙ ap (answer (h ∷ hs)) (added_nil (found_by ws (h ∷ hs)))
