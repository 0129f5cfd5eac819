-- ===== src/Prelude/Hex.antt =====
-- Hexadecimal text, as `fmt` prints it with %x.
use Prim.Native.Nat.{ℕ, zero, suc, ◌/◌, ◌%◌}
use Prim.Native.Char.{Char}
use Prim.Native.String.{String}
use mathlib.Core.Path.{◌≡◌, refl}
use mathlib.Core.List.{[], ◌∷◌}
use btclibwallet.Prelude.Bytes.{Bytes}

nth_char : String → ℕ → Char
nth_char String.[] n = "?"
nth_char (String.◌∷◌ c s) zero = c
nth_char (String.◌∷◌ c s) (suc n) = nth_char s n

hex_digit : ℕ → Char
unfolding nth_char
hex_digit n = nth_char "0123456789abcdef" n

-- %x of bytes.
unfoldable pub hex_encode : Bytes → String
unfolding hex_digit
hex_encode [] = ""
hex_encode (b ∷ bs) =
    String.◌∷◌ (hex_digit (b / 16)) (String.◌∷◌ (hex_digit (b % 16)) (hex_encode bs))

-- %#04x of a uint16.
unfoldable pub hex4 : ℕ → String
unfolding hex_encode
hex4 n = String.◌∷◌ "0" (String.◌∷◌ "x" (hex_encode (n / 256 ∷ n % 256 ∷ [])))

hex4_one : hex4 1 ≡ "0x0001"
unfolding hex4
hex4_one = refl

hex4_full : hex4 0xabcd ≡ "0xabcd"
unfolding hex4
hex4_full = refl
