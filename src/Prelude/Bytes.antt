-- ===== src/Prelude/Bytes.antt =====
-- Byte strings as lists of numbers: `bytes.Equal`, `bytes.HasPrefix`, and the laws of prefixes.
pub mod Order
use Prim.Native.Nat.{ℕ}
use mathlib.Core.Path.{◌≡◌, refl, ap}
use mathlib.Core.Logic.{◌≢◌, ◌↔◌}
use mathlib.Core.Bool.{Bool, true, false, ◌&&◌}
use mathlib.Core.List.{List, [], ◌∷◌, ◌++◌}
use native.Mathlib.Omega.{arith}
use btclibwallet.Prelude.Tests.{◌==◌}
use btclibwallet.Prelude.Lists.{length}

abbrev pub Bytes : Type 0
Bytes = List ℕ

unfoldable pub bytes_eq : Bytes → Bytes → Bool
bytes_eq [] [] = true
bytes_eq [] (y ∷ ys) = false
bytes_eq (x ∷ xs) [] = false
bytes_eq (x ∷ xs) (y ∷ ys) = (x == y) && bytes_eq xs ys

-- `has_prefix k p`: the byte string k begins with p.
unfoldable pub has_prefix : Bytes → Bytes → Bool
has_prefix k [] = true
has_prefix [] (p ∷ ps) = false
has_prefix (x ∷ xs) (p ∷ ps) = (x == p) && has_prefix xs ps

pub bytes_eq_refl : (x : Bytes) → bytes_eq x x ≡ true
unfolding bytes_eq
bytes_eq_refl [] = refl
bytes_eq_refl (x ∷ xs) = ground (arith, bytes_eq_refl xs)

pub eq_of_bytes_eq : (x y : Bytes) → bytes_eq x y ≡ true → x ≡ y
unfolding bytes_eq
eq_of_bytes_eq [] [] h = refl
eq_of_bytes_eq [] (y ∷ ys) h = ground arith
eq_of_bytes_eq (x ∷ xs) [] h = ground arith
eq_of_bytes_eq (x ∷ xs) (y ∷ ys) h = ground (arith, eq_of_bytes_eq xs ys)

pub bytes_eq_iff : (x y : Bytes) → (bytes_eq x y ≡ true) ↔ (x ≡ y)
bytes_eq_iff x y = (eq_of_bytes_eq x y, λ e. rw e (bytes_eq_refl y))

pub bytes_eq-false : (x y : Bytes) → x ≢ y → bytes_eq x y ≡ false
bytes_eq-false x y h = ground (arith, bytes_eq_iff x y)

-- Byte strings of different lengths differ.
pub ne_of_length_ne : (x y : Bytes) → length x ≢ length y → bytes_eq x y ≡ false
ne_of_length_ne x y h = bytes_eq-false x y (λ e. h (ap length e))

pub has_prefix-append : (p k : Bytes) → has_prefix (p ++ k) p ≡ true
unfolding has_prefix
has_prefix-append [] k = refl
has_prefix-append (x ∷ xs) k = ground (arith, has_prefix-append xs k)
