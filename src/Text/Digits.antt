-- ===== src/Text/Digits.antt =====
-- Texts of digits: the tests /^\d+$/ and its kin for other bases, and the number that they write.
pub mod RoundTrip
pub mod Trim
use Prim.Native.Char.{Char, code}
use Prim.Native.String
use boxui.Base.{
  ℕ, suc, ◌+◌, ◌*◌, ◌-◌, String, Bool, true, false, ◌&&◌, leb, ltb, nat_eq, if◌then◌else◌,
}

-- The value of a digit, letters of either case from ten on; 36 for any other character.
unfoldable pub digit_value : ℕ → ℕ
digit_value c =
    if leb 48 c && leb c 57
    then c - 48
    else if leb 97 c && leb c 122
    then c - 87
    else if leb 65 c && leb c 90
    then c - 55
    else 36

unfoldable pub all_digits : ℕ → String → Bool
unfolding digit_value
all_digits base String.[] = true
all_digits base (String.◌∷◌ c s) = ltb (digit_value (code c)) base && all_digits base s

-- `/^[…]+$/.test(s)` for the digits of the base
unfoldable pub is_digits : ℕ → String → Bool
unfolding all_digits
is_digits base String.[] = false
is_digits base (String.◌∷◌ c s) = all_digits base (String.◌∷◌ c s)

-- The number that the digits write after those that write `acc`.
unfoldable pub digits_value : ℕ → ℕ → String → ℕ
unfolding digit_value
digits_value base acc String.[] = acc
digits_value base acc (String.◌∷◌ c s) = digits_value base (acc * base + digit_value (code c)) s
