-- ===== src/Spv/Panics.antt =====
-- spv/sync.go, `getTransactionsByHashes`: a request whose last hash is there before panics, since the
-- slice is shortened while the loop goes on over its first length.
use btclibwallet.Prelude.{
  ℕ, zero, suc, ◌+◌, ◌-◌, ◌≤◌, ◌<◌, ◌≡◌, refl, ap, sym, ◌∙◌, subst, true, false, Option, none, some,
  List, [], ◌∷◌, ◌++◌, ◌==◌, ==_iff, ltb, length, take, drop, get_elem?, arith, inl, inr, Elem,
  Elem-cases, Bool-cases, Option-cases, append_assoc, length-append, length-take,
}
use btclibwallet.Errors.{Error}
use btclibwallet.Spv.{Hash, Tx}
use btclibwallet.Spv.GetData.{
  Slice, contents, remove_at, remove_found, remove_all, panic, Lookup, failure, look_up,
  get_transactions_by_hashes,
}

length-drop : (n : ℕ) (xs : List Hash) → length (drop n xs) ≡ length xs - n
length-drop zero xs = omega arith
length-drop (suc n) [] = omega arith
length-drop (suc n) (x ∷ xs) = omega (arith, length-drop n xs)

drop-append : (n : ℕ) (xs ys : List Hash) → n ≤ length xs → drop n (xs ++ ys) ≡ drop n xs ++ ys
drop-append zero xs ys l = refl
drop-append (suc n) [] ys l = absurd (omega (arith, l))
drop-append (suc n) (x ∷ xs) ys l = drop-append n xs ys (omega (arith, l))

get_elem?-last : (xs : List Hash) (h : Hash) → get_elem? (xs ++ h ∷ []) (length xs) ≡ some h
get_elem?-last [] h = refl
get_elem?-last (x ∷ xs) h = get_elem?-last xs h

-- A slice of at most so many elements, in an array that has h after them.
abbrev IsEnded : Hash → ℕ → Slice → Type 0
IsEnded h n s = (ys : List Hash) × (s.arr ≡ ys ++ h ∷ []) × (length ys ≡ n) × (s.len ≤ n)

-- A removal keeps the last element of the array.
remove_at-IsEnded :
    (h : Hash) (n i : ℕ) (s s' : Slice) (ys : List Hash)
    → s.arr ≡ ys ++ h ∷ []
    → length ys ≡ n
    → s.len ≤ suc n
    → remove_at i s ≡ some s'
    → IsEnded h n s'
unfolding remove_at
remove_at-IsEnded h n i s s' ys a b c e = elim (Bool-cases (ltb i s.len)) [
  | inr l ↦ absurd (ground (arith, e, l))
  | inl l ↦
      let lt : i < s.len = ground (arith, l) in
      let front : List Hash = take i s.arr in
      let mid : List Hash = drop (suc i) (take s.len s.arr) in
      let zs : List Hash = front ++ (mid ++ drop (s.len - 1) ys) in
      let whole : length s.arr ≡ suc n =
        ap length a ∙ length-append ys (h ∷ []) ∙ omega (arith, b) in
      let back : drop (s.len - 1) s.arr ≡ drop (s.len - 1) ys ++ h ∷ [] =
        ap (drop (s.len - 1)) a ∙ drop-append (s.len - 1) ys (h ∷ []) (omega (arith, b, c, lt)) in
      let same : s' ≡ record { arr = front ++ (mid ++ drop (s.len - 1) s.arr); len = s.len - 1 } =
        ground (arith, e, l) in
      let size : length zs ≡ n = omega (
        arith,
        length-append front (mid ++ drop (s.len - 1) ys),
        length-append mid (drop (s.len - 1) ys),
        length-take i s.arr (omega (arith, whole, lt, c)),
        length-drop (suc i) (take s.len s.arr),
        length-take s.len s.arr (omega (arith, whole, c)),
        length-drop (s.len - 1) ys,
        b,
        c,
        lt,
      ) in
      (
        zs,
        ap (λ (x : Slice). x.arr) same
            ∙ ap (λ l. front ++ (mid ++ l)) back
            ∙ ap (λ l. front ++ l) (sym (append_assoc mid (drop (s.len - 1) ys) (h ∷ [])))
            ∙ sym (append_assoc front (mid ++ drop (s.len - 1) ys) (h ∷ [])),
        size,
        omega (arith, ap (λ (x : Slice). x.len) same, c, lt),
      )
]

remove_at-beyond : (i : ℕ) (s : Slice) → s.len ≤ i → remove_at i s ≡ none
unfolding remove_at
remove_at-beyond i s l = ground (arith, l)

remove_found-go :
    (h x : Hash) (k i : ℕ) (s : Slice)
    → get_elem? s.arr i ≡ some x
    → (x == h) ≡ false
    → remove_found h k (i + 1) s ≡ none
    → remove_found h (suc k) i s ≡ none
unfolding remove_found
remove_found-go h x k i s g e r = rw (remove_found, g, e) r

remove_found-stop :
    (h : Hash) (k i : ℕ) (s : Slice)
    → get_elem? s.arr i ≡ some h
    → remove_at i s ≡ none
    → remove_found h (suc k) i s ≡ none
unfolding remove_found
remove_found-stop h k i s g e =
    let y : (h == h) ≡ true = ground arith in rw (remove_found, g, y, e) refl

remove_found-cut :
    (h : Hash) (k i : ℕ) (s s' : Slice)
    → get_elem? s.arr i ≡ some h
    → remove_at i s ≡ some s'
    → remove_found h k (i + 1) s' ≡ none
    → remove_found h (suc k) i s ≡ none
unfolding remove_found
remove_found-cut h k i s s' g e r =
    let y : (h == h) ≡ true = ground arith in rw (remove_found, g, y, e) r

-- Once the slice is shorter, the loop meets the hash beyond its length.
remove_found-ended :
    (h : Hash) (n k i : ℕ) (s : Slice)
    → IsEnded h n s
    → i + suc k ≡ suc n
    → remove_found h (suc k) i s ≡ none
unfolding remove_found
remove_found-ended h n zero i s (ys, a, b, c) e =
    remove_found-stop h zero i s
      (ap (get_elem? s.arr) (omega (arith, b, e))
        ∙ ap (λ l. get_elem? l (length ys)) a
        ∙ get_elem?-last ys h)
      (remove_at-beyond i s (omega (arith, c, e)))
remove_found-ended h n (suc k) i s (ys, a, b, c) e = elim (Option-cases (get_elem? s.arr i)) [
  | inl g ↦ rw (remove_found, g) refl
  | inr (x, g) ↦ elim (Bool-cases (x == h)) [
    | inr y ↦
        remove_found-go h x (suc k) i s g y
          (remove_found-ended h n k (i + 1) s (ys, a, b, c) (omega (arith, e)))
    | inl y ↦
        let g' = g ∙ ap some ((==_iff x h).0 y) in
        elim (Option-cases (remove_at i s)) [
          | inl r ↦ remove_found-stop h (suc k) i s g' r
          | inr (s', r) ↦ remove_found-cut h (suc k) i s s' g' r (
              remove_found-ended h n k (i + 1) s'
                (remove_at-IsEnded h n i s s' ys a b (omega (arith, c)) r) (omega (arith, e)))
        ]
  ]
]

get_elem?-at :
    (pre : List Hash) (x : Hash) (xs : List Hash) → get_elem? (pre ++ x ∷ xs) (length pre) ≡ some x
get_elem?-at [] x xs = refl
get_elem?-at (p ∷ ps) x xs = get_elem?-at ps x xs

-- The loop at the elements xs, of which one is the hash, as the one after them is.
remove_found-panics :
    (h : Hash) (pre xs : List Hash) (s : Slice)
    → Elem h xs
    → s.arr ≡ pre ++ (xs ++ h ∷ [])
    → s.len ≡ suc (length (pre ++ xs))
    → remove_found h (suc (length xs)) (length pre) s ≡ none
remove_found-panics h pre [] s m a l = elim m [ ]
remove_found-panics h pre (x ∷ xs) s m a l =
    let g = ap (λ t. get_elem? t (length pre)) a ∙ get_elem?-at pre x (xs ++ h ∷ []) in
    let a' = a ∙ sym (append_assoc pre (x ∷ xs) (h ∷ [])) in
    elim (Bool-cases (x == h)) [
      | inl y ↦
          let g' = g ∙ ap some ((==_iff x h).0 y) in
          elim (Option-cases (remove_at (length pre) s)) [
            | inl r ↦ remove_found-stop h (suc (length xs)) (length pre) s g' r
            | inr (s', r) ↦ remove_found-cut h (suc (length xs)) (length pre) s s' g' r (
                remove_found-ended h (length (pre ++ x ∷ xs)) (length xs) (length pre + 1) s'
                  (remove_at-IsEnded h (length (pre ++ x ∷ xs)) (length pre) s s' (pre ++ x ∷ xs) a'
                    refl (omega (arith, l)) r)
                  (omega (arith, length-append pre (x ∷ xs))))
          ]
      | inr y ↦
          let more : Elem h xs = elim (Elem-cases m) [
            | inl e ↦ absurd (ground (arith, e, y))
            | inr e ↦ e
          ] in
          let snoc : pre ++ x ∷ xs ≡ (pre ++ x ∷ []) ++ xs = sym (append_assoc pre (x ∷ []) xs) in
          remove_found-go h x (suc (length xs)) (length pre) s g y (
            subst (λ i. remove_found h (suc (length xs)) i s ≡ none) (length-append pre (x ∷ []))
              (remove_found-panics h (pre ++ x ∷ []) xs s more
                (a ∙ sym (append_assoc pre (x ∷ []) (xs ++ h ∷ [])))
                (l ∙ ap (λ t. suc (length t)) snoc)))
    ]

take_all : (xs : List Hash) → take (length xs) xs ≡ xs
take_all [] = refl
take_all (x ∷ xs) = ap (λ t. x ∷ t) (take_all xs)

remove_all-panics :
    (tx : Tx) (txs : List Tx) (s : Slice)
    → remove_found tx.hash s.len 0 s ≡ none
    → remove_all (tx ∷ txs) s ≡ none
unfolding remove_all
remove_all-panics tx txs s e = rw (remove_all, e) refl

look_up-panics :
    (w : Lookup) (ws : List Lookup) (found : List Tx) (s : Slice)
    → failure (w (contents s)).1 ≡ none
    → remove_all (w (contents s)).0 s ≡ none
    → look_up (w ∷ ws) found s ≡ panic
unfolding look_up
look_up-panics w ws found s f r = rw (look_up, f, r) refl

whole_slice : List Hash → Slice
whole_slice hs = record { arr = hs; len = length hs }

get_transactions_by_hashes-Elem :
    (ws : List Lookup) (h : Hash) (xs ys : List Hash)
    → Elem h xs
    → get_transactions_by_hashes ws (xs ++ ys) ≡ look_up ws [] (whole_slice (xs ++ ys))
unfolding get_transactions_by_hashes whole_slice
get_transactions_by_hashes-Elem ws h [] ys m = elim m [ ]
get_transactions_by_hashes-Elem ws h (x ∷ xs) ys m = refl

-- A request whose last hash is in it before panics, if the first wallet, asked for it, finds the
-- transaction of that hash first and gives no error.
pub get_transactions_by_hashes-panics :
    (w : Lookup) (ws : List Lookup) (tx : Tx) (txs : List Tx) (hs : List Hash)
    → Elem tx.hash hs
    → w (hs ++ tx.hash ∷ []) ≡ (tx ∷ txs, none)
    → get_transactions_by_hashes (w ∷ ws) (hs ++ tx.hash ∷ []) ≡ panic
unfolding failure whole_slice
get_transactions_by_hashes-panics w ws tx txs hs m e =
    let all : List Hash = hs ++ tx.hash ∷ [] in
    let e' : w (contents (whole_slice all)) ≡ (tx ∷ txs, none) = ap w (take_all all) ∙ e in
    let size : length all ≡ suc (length hs) = length-append hs (tx.hash ∷ []) ∙ omega arith in
    let found : remove_found tx.hash (length all) 0 (whole_slice all) ≡ none =
      subst (λ n. remove_found tx.hash n 0 (whole_slice all) ≡ none) (sym size)
        (remove_found-panics tx.hash [] hs (whole_slice all) m refl size) in
    get_transactions_by_hashes-Elem (w ∷ ws) tx.hash hs (tx.hash ∷ []) m
    ∙ look_up-panics w ws [] (whole_slice all) (ap (λ (v : List Tx × Option Error). failure v.1) e')
        (ap (λ (v : List Tx × Option Error). remove_all v.0 (whole_slice all)) e'
          ∙ remove_all-panics tx txs (whole_slice all) found)
