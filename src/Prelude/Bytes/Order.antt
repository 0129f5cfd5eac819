-- ===== src/Prelude/Bytes/Order.antt =====
-- The order of byte strings, `bytes.Compare`, and where the strings with one prefix lie in it: what
-- `Seek` and `ValidForPrefix` of an iterator walk.
use mathlib.Core.Path.{◌≡◌, refl, sym, subst}
use mathlib.Core.Bool.{Bool, true, false, ◌&&◌, ◌||◌}
use mathlib.Core.List.{List, [], ◌∷◌}
use mathlib.Core.Logic.{inl, inr}
use native.Mathlib.Omega.{arith}
use btclibwallet.Prelude.Tests.{◌==◌, ltb, if◌then◌else◌, Bool-cases}
use btclibwallet.Prelude.Lists.{All, Elem, here, there, All-elem, Elem-cases, Elem-nil}
use btclibwallet.Prelude.Bytes.{Bytes, has_prefix}

unfoldable pub bytes_lt : Bytes → Bytes → Bool
bytes_lt [] [] = false
bytes_lt [] (y ∷ ys) = true
bytes_lt (x ∷ xs) [] = false
bytes_lt (x ∷ xs) (y ∷ ys) = ltb x y || (x == y) && bytes_lt xs ys

-- A string is not below its prefix.
pub bytes_lt-prefix : (k p : Bytes) → has_prefix k p ≡ true → bytes_lt k p ≡ false
unfolding bytes_lt has_prefix
bytes_lt-prefix [] [] h = refl
bytes_lt-prefix (x ∷ k) [] h = refl
bytes_lt-prefix [] (y ∷ p) h = ground arith
bytes_lt-prefix (x ∷ k) (y ∷ p) h = ground (arith, bytes_lt-prefix k p)

-- Past the strings with a prefix there are no more of them.
pub has_prefix-past :
    (a b p : Bytes)
    → bytes_lt a b ≡ true
    → bytes_lt a p ≡ false
    → has_prefix a p ≡ false
    → has_prefix b p ≡ false
unfolding bytes_lt has_prefix
has_prefix-past a b [] h k n = ground arith
has_prefix-past [] b (z ∷ p) h k n = ground arith
has_prefix-past (x ∷ a) [] (z ∷ p) h k n = refl
has_prefix-past (x ∷ a) (y ∷ b) (z ∷ p) h k n = ground (arith, has_prefix-past a b p)

bytes_lt-nil : (a : Bytes) → bytes_lt a [] ≡ false
unfolding bytes_lt
bytes_lt-nil [] = refl
bytes_lt-nil (x ∷ a) = refl

-- Above a string that is not below p there is none below p.
bytes_lt-above : (a b p : Bytes) → bytes_lt a b ≡ true → bytes_lt a p ≡ false → bytes_lt b p ≡ false
unfolding bytes_lt
bytes_lt-above [] b [] h k = bytes_lt-nil b
bytes_lt-above (x ∷ a) b [] h k = bytes_lt-nil b
bytes_lt-above [] b (z ∷ p) h k = ground arith
bytes_lt-above (x ∷ a) [] (z ∷ p) h k = ground arith
bytes_lt-above (x ∷ a) (y ∷ b) (z ∷ p) h k = ground (arith, bytes_lt-above a b p)

module _ {A : Type 0} (key : A → Bytes) where
  -- Each key is below the later ones.
  abbrev pub IsSorted : List A → Type 0
  IsSorted [] = Unit
  IsSorted (x ∷ xs) = All (λ y. bytes_lt (key x) (key y) ≡ true) xs × IsSorted xs

  -- `Seek(p)`: the items from the first one that is not below p.
  unfoldable pub seek : Bytes → List A → List A
  seek p [] = []
  seek p (x ∷ xs) = let rest = seek p xs in if bytes_lt (key x) p then rest else x ∷ xs

  -- The items up to the first one for which `ValidForPrefix(p)` fails.
  unfoldable pub while_prefix : Bytes → List A → List A
  while_prefix p [] = []
  while_prefix p (x ∷ xs) =
      let rest = while_prefix p xs in if has_prefix (key x) p then x ∷ rest else []

  -- The loop `for it.Seek(p); it.ValidForPrefix(p); it.Next()`.
  abbrev pub range : Bytes → List A → List A
  range p xs = while_prefix p (seek p xs)

  none_past :
      (p : Bytes) (x : A) (xs : List A) {i : A}
      → All (λ y. bytes_lt (key x) (key y) ≡ true) xs
      → bytes_lt (key x) p ≡ false
      → has_prefix (key x) p ≡ false
      → Elem i xs
      → has_prefix (key i) p ≡ false
  none_past p x xs {i} s above out e =
      has_prefix-past (key x) (key i) p (All-elem (λ y. bytes_lt (key x) (key y) ≡ true) e s) above
        out

  while_prefix-Elem :
      (p : Bytes) (xs : List A) {i : A}
      → IsSorted xs
      → All (λ y. bytes_lt (key y) p ≡ false) xs
      → Elem i xs
      → has_prefix (key i) p ≡ true
      → Elem i (while_prefix p xs)
  unfolding while_prefix
  while_prefix-Elem p [] s a e h = elim e [ ]
  while_prefix-Elem p (x ∷ xs) (s, ss) (a, above) here h = rw h here
  while_prefix-Elem p (x ∷ xs) {i} (s, ss) (a, above) (there e) h =
      let more : Elem i (while_prefix p xs) = while_prefix-Elem p xs ss above e h in
      elim (Bool-cases (has_prefix (key x) p)) [
        | inl y ↦ rw y (there more)
        | inr n ↦ absurd (ground (arith, n, none_past p x xs s a n e))
      ]

  seek-above :
      (p : Bytes) (x : A) (xs : List A)
      → All (λ y. bytes_lt (key x) (key y) ≡ true) xs
      → bytes_lt (key x) p ≡ false
      → All (λ y. bytes_lt (key y) p ≡ false) xs
  seek-above p x [] h a = tt
  seek-above p x (y ∷ ys) (h, hs) a = (bytes_lt-above (key x) (key y) p h a, seek-above p x ys hs a)

  -- Walking from `Seek(p)` while `ValidForPrefix(p)` meets every item with the prefix.
  pub range-Elem :
      (p : Bytes) (xs : List A) {i : A}
      → IsSorted xs
      → Elem i xs
      → has_prefix (key i) p ≡ true
      → Elem i (range p xs)
  unfolding seek
  range-Elem p [] s e h = elim e [ ]
  range-Elem p (x ∷ xs) (s, ss) here h = rw (bytes_lt-prefix (key x) p h) (
      while_prefix-Elem p (x ∷ xs) (s, ss)
        (bytes_lt-prefix (key x) p h, seek-above p x xs s (bytes_lt-prefix (key x) p h)) here h)
  range-Elem p (x ∷ xs) {i} (s, ss) (there e) h = elim (Bool-cases (bytes_lt (key x) p)) [
    | inl low ↦ rw low (range-Elem p xs ss e h)
    | inr high ↦
        rw high (while_prefix-Elem p (x ∷ xs) (s, ss) (high, seek-above p x xs s high) (there e) h)
  ]

  while_prefix_sound :
      (p : Bytes) (xs : List A) {i : A}
      → Elem i (while_prefix p xs)
      → Elem i xs × (has_prefix (key i) p ≡ true)
  unfolding while_prefix
  while_prefix_sound p [] e = elim e [ ]
  while_prefix_sound p (x ∷ xs) {i} e = elim (Bool-cases (has_prefix (key x) p)) [
    | inl y ↦ elim (Elem-cases (rw y at e)) [
      | inl same ↦ (
        subst (λ y. Elem i (y ∷ xs)) (sym same) here,
        subst (λ y. has_prefix (key y) p ≡ true) same y,
      )
      | inr more ↦ let (a, b) = while_prefix_sound p xs more in (there a, b)
    ]
    | inr n ↦ absurd (Elem-nil (rw n at e))
  ]

  seek_sound : (p : Bytes) (xs : List A) {i : A} → Elem i (seek p xs) → Elem i xs
  unfolding seek
  seek_sound p [] e = elim e [ ]
  seek_sound p (x ∷ xs) {i} e = elim (Bool-cases (bytes_lt (key x) p)) [
    | inl low ↦ there (seek_sound p xs (rw low at e))
    | inr high ↦ rw high at e
  ]

  -- It meets no other item.
  pub range_sound :
      (p : Bytes) (xs : List A) {i : A}
      → Elem i (range p xs)
      → Elem i xs × (has_prefix (key i) p ≡ true)
  range_sound p xs e = let (a, b) = while_prefix_sound p (seek p xs) e in (seek_sound p xs a, b)
