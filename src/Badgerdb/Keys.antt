-- ===== src/Badgerdb/Keys.antt =====
-- badgerdb/bucket.go: the keys and values as the flat table holds them. A bucket is the string of
-- its prefix; the first byte of a stored value is the length of the bucket's prefix, as a byte.
use btclibwallet.Prelude.{
  ℕ, ◌%◌, ◌≤◌, ◌≡◌, Option, none, some, ◌∷◌, ◌++◌, Result, ok, err, ltb, leb, if◌then◌else◌, length,
  take, arith,
}
use btclibwallet.Prelude.Bytes.{Bytes}
use btclibwallet.Errors.{Kind, invalid}

abbrev pub max_key_size : ℕ
max_key_size = 65378

abbrev pub meta_bucket : ℕ
meta_bucket = 5

abbrev pub insert_prefix_length : Bytes → ℕ → Bytes
insert_prefix_length val n = (n % 256) ∷ val

unfoldable pub add_prefix : Bytes → Bytes → Result Kind Bytes
add_prefix prefix key = if ltb max_key_size (length key) then err invalid else ok (prefix ++ key)

-- The slice `b[:n]`; none is a panic. A key with room past its length is not modelled.
unfoldable pub slice_to : ℕ → Bytes → Option Bytes
slice_to n b = if leb n (length b) then some (take n b) else none

pub add_prefix-ok : (p k : Bytes) → length k ≤ max_key_size → add_prefix p k ≡ ok (p ++ k)
unfolding add_prefix
add_prefix-ok p k h = ground arith

pub slice_to-ok : (n : ℕ) (b : Bytes) → n ≤ length b → slice_to n b ≡ some (take n b)
unfolding slice_to
slice_to-ok n b h = ground arith
