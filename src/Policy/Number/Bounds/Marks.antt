-- ===== src/Policy/Number/Bounds/Marks.antt =====
-- The texts of marks: a leading 0, then octal digits, or a letter for the base and its digits.
use Prim.Native.Char.{Char, code}
use mathlib.Core.Bool.{false≢true}
use boxui.Base.{
  ℕ, String, true, some, ◌≡◌, ◌⊎◌, inl, inr, arith, ◌≤◌, Option-cases, Bool-cases, and-parts, leb,
  nat_eq,
}
use boxui.Text.Digits.{is_digits, digits_value}
use boxui.Policy.Number.{base_of, within, mark_rest, string_mark}

-- Digits of a base that write a number up to a maximum.
abbrev pub IsNumeral : ℕ → ℕ → String → Type 0
IsNumeral maximum base digits =
    (is_digits base digits ≡ true) × (digits_value base 0 digits ≤ maximum)

-- x and X stand for the base 16, b and B for 2, o and O for 8.
abbrev pub IsBaseLetter : ℕ → ℕ → Type 0
IsBaseLetter letter base =
    ((base ≡ 16) × ((letter ≡ b'x') ⊎ (letter ≡ b'X')))
    ⊎ ((base ≡ 2) × ((letter ≡ b'b') ⊎ (letter ≡ b'B')))
    ⊎ ((base ≡ 8) × ((letter ≡ b'o') ⊎ (letter ≡ b'O')))

pub data IsMark (maximum : ℕ) : String → Type 0 where
  plain :
      (c : Char) (digits : String)
      → code c ≡ b'0'
      → IsNumeral maximum 8 digits
      → IsMark maximum (String.◌∷◌ c digits)
  based :
      (c d : Char) (base : ℕ) (digits : String)
      → code c ≡ b'0'
      → IsBaseLetter (code d) base
      → IsNumeral maximum base digits
      → IsMark maximum (String.◌∷◌ c (String.◌∷◌ d digits))

base_of-IsBaseLetter : (n base : ℕ) → base_of n ≡ some base → IsBaseLetter n base
base_of-IsBaseLetter n base h = ground (arith, h)

within-IsNumeral :
    (maximum base : ℕ) (digits : String)
    → within maximum base digits ≡ true
    → IsNumeral maximum base digits
within-IsNumeral maximum base digits h =
    let (all, small) =
      and-parts (is_digits base digits) (leb (digits_value base 0 digits) maximum) h in
    (all, ground (arith, small))

mark_rest-IsMark :
    (c : Char) (s : String) (maximum : ℕ)
    → code c ≡ b'0'
    → mark_rest maximum s ≡ true
    → IsMark maximum (String.◌∷◌ c s)
mark_rest-IsMark c String.[] maximum z h = absurd (false≢true h)
mark_rest-IsMark c (String.◌∷◌ d s) maximum z h = elim (Bool-cases (is_digits 8 (String.◌∷◌ d s))) [
  | inl e ↦ plain c (String.◌∷◌ d s) z (e, ground (arith, e, h))
  | inr e ↦ elim (Option-cases (base_of (code d))) [
    | inl none_there ↦ absurd (false≢true (rw (e, none_there) at h))
    | inr (base, found) ↦
        based c d base s z (base_of-IsBaseLetter (code d) base found)
          (within-IsNumeral maximum base s (rw (e, found) at h))
  ]
]

-- A text that stringMark accepts is a mark up to the maximum.
pub string_mark-IsMark :
    (token : String) (maximum : ℕ) → string_mark token maximum ≡ true → IsMark maximum token
unfolding string_mark
string_mark-IsMark String.[] maximum h = absurd (false≢true h)
string_mark-IsMark (String.◌∷◌ c s) maximum h =
    let (z, rest) = and-parts (nat_eq (code c) b'0') (mark_rest maximum s) h in
    mark_rest-IsMark c s maximum (ground (arith, z)) rest
