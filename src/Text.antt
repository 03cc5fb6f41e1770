-- ===== src/Text.antt =====
-- JavaScript's string operations, as far as the panel uses them.
pub mod Trim
pub mod Digits
use Prim.Native.Char.{Char, code}
use Prim.Native.String
use Prim.Native.Nat.{◌/◌, ◌%◌}
use boxui.Base.{
  ℕ, zero, suc, String, List, [], ◌∷◌, ◌≡◌, refl, nat_eq, ltb, get_elem?, or_else, if◌then◌else◌,
  Bool-cases, inl, inr,
}

abbrev pub one_char : Char → String
one_char c = String.◌∷◌ c String.[]

split_from : ℕ → String → String → List String
split_from separator part String.[] = part ∷ []
split_from separator part (String.◌∷◌ c s) =
    let closed = part ∷ split_from separator String.[] s in
    let longer = split_from separator (String.◌++◌ part (one_char c)) s in
    if nat_eq (code c) separator then closed else longer

-- `path.split(".")`
unfoldable pub split_dots : String → List String
unfolding split_from
split_dots path = split_from b'.' "" path

split_from-cons :
    (separator : ℕ) (part s : String)
    → (first : String) × (rest : List String) × (split_from separator part s ≡ first ∷ rest)
unfolding split_from
split_from-cons separator part String.[] = (part, [], refl)
split_from-cons separator part (String.◌∷◌ c s) = elim (Bool-cases (nat_eq (code c) separator)) [
  | inl here ↦ (part, split_from separator String.[] s, rw here)
  | inr there ↦ rw there (split_from-cons separator (String.◌++◌ part (one_char c)) s)
]

-- A path has one key at least.
pub split_dots-cons :
    (path : String) → (first : String) × (rest : List String) × (split_dots path ≡ first ∷ rest)
unfolding split_dots
split_dots-cons path = split_from-cons b'.' "" path

split_dots_two : split_dots "tls.ech.enabled" ≡ "tls" ∷ "ech" ∷ "enabled" ∷ []
unfolding split_dots
split_dots_two = refl

unfoldable pub digit : ℕ → String
digit n = or_else (get_elem? ("0" ∷ "1" ∷ "2" ∷ "3" ∷ "4" ∷ "5" ∷ "6" ∷ "7" ∷ "8" ∷ "9" ∷ []) n) ""

-- Each round drops a digit, so `n` rounds are enough for `n`.
unfoldable pub decimal_from : ℕ → ℕ → String
decimal_from zero n = digit (n % 10)
decimal_from (suc fuel) n =
    let longer = String.◌++◌ (decimal_from fuel (n / 10)) (digit (n % 10)) in
    if ltb n 10 then digit n else longer

-- `String(n)` of a whole number below 10 ^ 21; above that JavaScript prints an exponent.
unfoldable pub decimal : ℕ → String
unfolding decimal_from digit
decimal n = decimal_from n n

decimal_65535 : decimal 65535 ≡ "65535"
unfolding decimal
decimal_65535 = refl
