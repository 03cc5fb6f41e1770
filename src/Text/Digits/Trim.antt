-- ===== src/Text/Digits/Trim.antt =====
-- A text of digits has no white space.
use Prim.Native.Char.{Char, code}
use boxui.Base.{ℕ, String, true, false, ◌≡◌, refl, arith, ltb}
use boxui.Text.Trim.{is_white, trim_start, prepend_kept, trim_end, trim, is_blank}
use boxui.Text.Digits.{digit_value, all_digits, is_digits}

digit-not_white : (n : ℕ) → ltb (digit_value n) 10 ≡ true → is_white n ≡ false
unfolding digit_value is_white
digit-not_white n h = ground arith

prepend_kept-digit :
    (c : Char) (s : String)
    → ltb (digit_value (code c)) 10 ≡ true
    → prepend_kept c s ≡ String.◌∷◌ c s
prepend_kept-digit c String.[] h = rw (digit-not_white (code c) h) refl
prepend_kept-digit c (String.◌∷◌ d s) h = refl

trim_end-digits : (s : String) → all_digits 10 s ≡ true → trim_end s ≡ s
unfolding trim_end all_digits
trim_end-digits String.[] h = refl
trim_end-digits (String.◌∷◌ c s) h =
    rw (trim_end-digits s (ground arith)) (prepend_kept-digit c s (ground arith))

trim_start-digits : (s : String) → all_digits 10 s ≡ true → trim_start s ≡ s
unfolding trim_start all_digits
trim_start-digits String.[] h = refl
trim_start-digits (String.◌∷◌ c s) h = rw (digit-not_white (code c) (ground arith)) refl

pub trim-digits : (s : String) → is_digits 10 s ≡ true → trim s ≡ s
unfolding trim is_digits
trim-digits String.[] h = ground arith
trim-digits (String.◌∷◌ c s) h =
    rw (trim_start-digits (String.◌∷◌ c s) h) (trim_end-digits (String.◌∷◌ c s) h)

pub is_digits-not_blank : (s : String) → is_digits 10 s ≡ true → is_blank s ≡ false
unfolding is_digits
is_digits-not_blank String.[] h = ground arith
is_digits-not_blank (String.◌∷◌ c s) h = refl
