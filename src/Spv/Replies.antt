-- ===== src/Spv/Replies.antt =====
-- spv/sync.go, `getTransactionsByHashes`: what the removal of found hashes from the slice leaves.
use btclibwallet.Prelude.{
  append_assoc, ℕ, zero, suc, ◌+◌, ◌-◌, ◌≡◌, ◌≢◌, true, false, some, List, [], ◌∷◌, ◌++◌,
  if◌then◌else◌, ◌==◌, ==_iff, length, take, drop, get_elem?, refl, ap, sym, ◌∙◌, subst, arith,
  Elem, here, there, All, All-of_Elem, Bool-cases, inl, inr, length-append, take-length-append,
  Elem-cases, Elem-append, Elem-nil,
}
use btclibwallet.Spv.{Hash}
use btclibwallet.Spv.GetData.{Slice, remove_at, remove_found}

-- The hashes but one.
unfoldable pub without : Hash → List Hash → List Hash
without h [] = []
without h (x ∷ xs) = let rest = without h xs in if x == h then rest else x ∷ rest

abbrev pub IsDistinct : List Hash → Type 0
IsDistinct [] = Unit
IsDistinct (x ∷ xs) = ¬ Elem x xs × IsDistinct xs

get_elem?-append :
    (pre : List Hash) (x : Hash) (xs : List Hash) → get_elem? (pre ++ x ∷ xs) (length pre) ≡ some x
get_elem?-append [] x xs = refl
get_elem?-append (p ∷ ps) x xs = get_elem?-append ps x xs

append_snoc : (pre : List Hash) (x : Hash) (xs : List Hash) → (pre ++ x ∷ []) ++ xs ≡ pre ++ x ∷ xs
append_snoc [] x xs = refl
append_snoc (p ∷ ps) x xs = ap (λ t. p ∷ t) (append_snoc ps x xs)

remove_found-skip :
    (h x : Hash) (k i : ℕ) (s : Slice)
    → get_elem? s.arr i ≡ some x
    → (x == h) ≡ false
    → remove_found h (suc k) i s ≡ remove_found h k (i + 1) s
unfolding remove_found
remove_found-skip h x k i s e n = rw (remove_found, e, n) refl

remove_found-hit :
    (h x : Hash) (k i : ℕ) (s s' : Slice)
    → get_elem? s.arr i ≡ some x
    → (x == h) ≡ true
    → remove_at i s ≡ some s'
    → remove_found h (suc k) i s ≡ remove_found h k (i + 1) s'
unfolding remove_found
remove_found-hit h x k i s s' e y r = rw (remove_found, e, y, r) refl

-- Nothing is removed where the hash is not met.
remove_found-none :
    (h : Hash) (pre mid tail : List Hash) (s : Slice) (i : ℕ)
    → s.arr ≡ pre ++ (mid ++ tail)
    → i ≡ length pre
    → All (λ x. (x == h) ≡ false) mid
    → remove_found h (length mid) i s ≡ some s
unfolding remove_found
remove_found-none h pre [] tail s i e j a = refl
remove_found-none h pre (x ∷ xs) tail s i e j a =
    remove_found-skip h x (length xs) i s
      (ap (λ t. get_elem? t i) e
        ∙ ap (get_elem? (pre ++ x ∷ (xs ++ tail))) j
        ∙ get_elem?-append pre x (xs ++ tail))
      a.0
    ∙ remove_found-none h (pre ++ x ∷ []) xs tail s (i + 1)
        (e ∙ sym (append_snoc pre x (xs ++ tail))) (omega (arith, j, length-append pre (x ∷ [])))
        a.1

last_of : Hash → List Hash → Hash
last_of x [] = x
last_of x (y ∷ ys) = last_of y ys

drop-last :
    (x : Hash) (xs tail : List Hash) → drop (length xs) (x ∷ (xs ++ tail)) ≡ last_of x xs ∷ tail
unfolding last_of
drop-last x [] tail = refl
drop-last x (y ∷ ys) tail = drop-last y ys tail

drop-append : (pre ys : List Hash) (m n : ℕ) → m ≡ length pre + n → drop m (pre ++ ys) ≡ drop n ys
drop-append [] ys m n e = ap (λ k. drop k ys) (omega (arith, e))
drop-append (p ∷ ps) ys zero n e = absurd (omega (arith, e))
drop-append (p ∷ ps) ys (suc m) n e = drop-append ps ys m n (omega (arith, e))

take-append :
    (pre xs tail : List Hash) (m : ℕ)
    → m ≡ length pre + length xs
    → take m (pre ++ (xs ++ tail)) ≡ pre ++ xs
take-append pre xs tail m e =
    ap (take m) (sym (append_assoc pre xs tail))
    ∙ ap (λ k. take k ((pre ++ xs) ++ tail)) (omega (arith, e, length-append pre xs))
    ∙ take-length-append (pre ++ xs) tail

-- A removal in the middle shifts what follows and leaves the last element in place.
remove_at-middle :
    (pre : List Hash) (x : Hash) (xs tail : List Hash) (s : Slice) (i : ℕ)
    → s.arr ≡ pre ++ (x ∷ xs ++ tail)
    → s.len ≡ length pre + suc (length xs)
    → i ≡ length pre
    → remove_at i s
      ≡ some (record { arr = pre ++ (xs ++ last_of x xs ∷ tail); len = length pre + length xs })
unfolding remove_at
remove_at-middle pre x xs tail s i a l e =
    let first =
      ap (take i) a
      ∙ ap (λ k. take k (pre ++ (x ∷ xs ++ tail))) e
      ∙ take-length-append pre (x ∷ xs ++ tail) in
    let middle =
      ap (drop (suc i)) (ap (take s.len) a ∙ take-append pre (x ∷ xs) tail s.len l)
      ∙ drop-append pre (x ∷ xs) (suc i) 1 (omega (arith, e)) in
    let final =
      ap (drop (s.len - 1)) a
      ∙ drop-append pre (x ∷ xs ++ tail) (s.len - 1) (length xs) (omega (arith, l))
      ∙ drop-last x xs tail in
    ground (arith, first, middle, final, l, e)

last_of-Elem : (x : Hash) (xs : List Hash) → Elem (last_of x xs) (x ∷ xs)
unfolding last_of
last_of-Elem x [] = here
last_of-Elem x (y ∷ ys) = there (last_of-Elem y ys)

other_hash : (h x : Hash) → x ≢ h → (x == h) ≡ false
other_hash h x n = ground (arith, n)

absent : (h : Hash) (xs : List Hash) → ¬ Elem h xs → All (λ x. (x == h) ≡ false) xs
absent h xs n = All-of_Elem _ xs (λ x e. other_hash h x (λ same. n (subst (λ t. Elem t xs) same e)))

without-absent : (h : Hash) (xs : List Hash) → All (λ x. (x == h) ≡ false) xs → without h xs ≡ xs
unfolding without
without-absent h [] a = refl
without-absent h (x ∷ xs) a = rw (a.0, without-absent h xs a.1) refl

remove_found-after :
    (h : Hash) (pre xs tail : List Hash) (x : Hash) (s : Slice) (i : ℕ)
    → s.arr ≡ pre ++ (xs ++ last_of x xs ∷ tail)
    → i ≡ length pre + 1
    → ¬ Elem h xs
    → remove_found h (length xs) i s ≡ some s
unfolding remove_found last_of
remove_found-after h pre [] tail x s i a e n = refl
remove_found-after h pre (y ∷ ys) tail x s i a e n =
    subst (λ k. remove_found h k i s ≡ some s) {y = length (y ∷ ys)}
      (omega (arith, length-append ys (last_of y ys ∷ [])))
      (remove_found-none h (pre ++ y ∷ []) (ys ++ last_of y ys ∷ []) tail s i
        (a
          ∙ sym (append_snoc pre y _)
          ∙ ap (λ t. (pre ++ y ∷ []) ++ t) (sym (append_assoc ys (last_of y ys ∷ []) tail)))
        (omega (arith, e, length-append pre (y ∷ [])))
        (absent h (ys ++ last_of y ys ∷ []) (λ m. n (elim (Elem-append ys m) [
          | inl l ↦ there l
          | inr r ↦ elim (Elem-cases r) [
            | inl same ↦ subst (λ t. Elem t (y ∷ ys)) same (last_of-Elem y ys)
            | inr none' ↦ absurd (Elem-nil none')
          ]
        ]))))

-- The slice is what is left, whatever stands after it in the array.
abbrev pub IsSlice : Slice → List Hash → Type 0
IsSlice s xs = ((tail : List Hash) × (s.arr ≡ xs ++ tail)) × (s.len ≡ length xs)

pub remove_found-rest :
    (h : Hash) (pre rest tail : List Hash) (s : Slice) (i : ℕ)
    → s.arr ≡ pre ++ (rest ++ tail)
    → s.len ≡ length pre + length rest
    → i ≡ length pre
    → IsDistinct rest
    → (s' : Slice) × (remove_found h (length rest) i s ≡ some s')
      × IsSlice s' (pre ++ without h rest)
unfolding without remove_found
remove_found-rest h pre [] tail s i a l e d =
    (s, refl, ((tail, a ∙ sym (append_assoc pre [] tail)), omega (arith, l, length-append pre [])))
remove_found-rest h pre (x ∷ xs) tail s i a l e d = elim (Bool-cases (x == h)) [
  | inr n ↦
      let rest =
        remove_found-rest h (pre ++ x ∷ []) xs tail s (i + 1)
          (a ∙ sym (append_snoc pre x (xs ++ tail))) (omega (arith, l, length-append pre (x ∷ [])))
          (omega (arith, e, length-append pre (x ∷ []))) d.1 in
      let at_i =
        ap (λ t. get_elem? t i) a
        ∙ ap (get_elem? (pre ++ x ∷ (xs ++ tail))) e
        ∙ get_elem?-append pre x (xs ++ tail) in
      (
        rest.0,
        remove_found-skip h x (length xs) i s at_i n ∙ rest.1,
        rw n (subst (IsSlice rest.0) (append_snoc pre x (without h xs)) rest.2),
      )
  | inl y ↦
      let at_i =
        ap (λ t. get_elem? t i) a
        ∙ ap (get_elem? (pre ++ x ∷ (xs ++ tail))) e
        ∙ get_elem?-append pre x (xs ++ tail) in
      let left : Slice = record {
        arr = pre ++ (xs ++ last_of x xs ∷ tail);
        len = length pre + length xs;
      } in
      let gone : ¬ Elem h xs = subst (λ t. ¬ Elem t xs) ((==_iff x h).0 y) d.0 in
      (
        left,
        remove_found-hit h x (length xs) i s left at_i y (remove_at-middle pre x xs tail s i a l e)
            ∙ remove_found-after h pre xs tail x left (i + 1) refl (omega (arith, e)) gone,
        rw (y, without-absent h xs (absent h xs gone))
            (
              (last_of x xs ∷ tail, sym (append_assoc pre xs (last_of x xs ∷ tail))),
              sym (length-append pre xs),
            ),
      )
]
