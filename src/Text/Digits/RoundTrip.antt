-- ===== src/Text/Digits/RoundTrip.antt =====
-- A number that is printed in decimal is read back.
use Prim.Native.Char.{code}
use Prim.Native.String
use Prim.Native.Nat.{◌/◌, ◌%◌}
use native.Mathlib.Nat.{mod-lt, div-add-mod}
use text.Mathlib.TextLemmas.{nil-append, cons-append}
use boxui.Base.{
  ℕ, zero, suc, ◌+◌, ◌*◌, ◌≤◌, ◌<◌, String, true, ◌≡◌, refl, subst, arith, ltb, Bool-cases, inl,
  inr,
}
use boxui.Text.{decimal, decimal_from, digit}
use boxui.Text.Digits.{digit_value, all_digits, is_digits, digits_value}

digits_value-append :
    (base acc : ℕ) (s t : String)
    → digits_value base acc (String.◌++◌ s t) ≡ digits_value base (digits_value base acc s) t
unfolding digits_value
digits_value-append base acc String.[] t = rw (nil-append t) refl
digits_value-append base acc (String.◌∷◌ c s) t =
    rw (cons-append c s t) (digits_value-append base (acc * base + digit_value (code c)) s t)

all_digits-append :
    (base : ℕ) (s t : String)
    → all_digits base s ≡ true
    → all_digits base t ≡ true
    → all_digits base (String.◌++◌ s t) ≡ true
unfolding all_digits
all_digits-append base String.[] t h k = rw (nil-append t) k
all_digits-append base (String.◌∷◌ c s) t h k =
    let rest = all_digits-append base s t (ground arith) k in rw (cons-append c s t) (ground arith)

is_digits-all : (base : ℕ) (s : String) → is_digits base s ≡ true → all_digits base s ≡ true
unfolding is_digits
is_digits-all base String.[] h = ground arith
is_digits-all base (String.◌∷◌ c s) h = h

is_digits-append :
    (base : ℕ) (s t : String)
    → is_digits base s ≡ true
    → all_digits base t ≡ true
    → is_digits base (String.◌++◌ s t) ≡ true
unfolding is_digits
is_digits-append base String.[] t h k = ground arith
is_digits-append base (String.◌∷◌ c s) t h k =
    let all = all_digits-append base (String.◌∷◌ c s) t h k in
    rw (cons-append c s t) (subst (λ u. all_digits base u ≡ true) (cons-append c s t) all)

-- The ten digits.
digit_lem :
    (d acc : ℕ)
    → d < 10
    → (is_digits 10 (digit d) ≡ true) × (digits_value 10 acc (digit d) ≡ acc * 10 + d)
unfolding is_digits digits_value digit
digit_lem zero acc h = (refl, refl)
digit_lem (suc zero) acc h = (refl, refl)
digit_lem (suc (suc zero)) acc h = (refl, refl)
digit_lem (suc (suc (suc zero))) acc h = (refl, refl)
digit_lem (suc (suc (suc (suc zero)))) acc h = (refl, refl)
digit_lem (suc (suc (suc (suc (suc zero))))) acc h = (refl, refl)
digit_lem (suc (suc (suc (suc (suc (suc zero)))))) acc h = (refl, refl)
digit_lem (suc (suc (suc (suc (suc (suc (suc zero))))))) acc h = (refl, refl)
digit_lem (suc (suc (suc (suc (suc (suc (suc (suc zero)))))))) acc h = (refl, refl)
digit_lem (suc (suc (suc (suc (suc (suc (suc (suc (suc zero))))))))) acc h = (refl, refl)
digit_lem (suc (suc (suc (suc (suc (suc (suc (suc (suc (suc d)))))))))) acc h = ground (arith, h)

IsRead : String → ℕ → Type 0
IsRead s n = (is_digits 10 s ≡ true) × (digits_value 10 0 s ≡ n)

IsRead-append :
    (s : String) (q r : ℕ) → r < 10 → IsRead s q → IsRead (String.◌++◌ s (digit r)) (10 * q + r)
unfolding IsRead
IsRead-append s q r small (all, value) =
    let (one, last) = digit_lem r q small in
    (
      is_digits-append 10 s (digit r) all (is_digits-all 10 (digit r) one),
      rw (digits_value-append 10 0 s (digit r), value, last) (omega arith),
    )

tenth_small : (n fuel : ℕ) → n ≤ suc fuel → 10 ≤ n → n / 10 ≤ fuel
tenth_small n fuel h large = omega (arith, div-add-mod n 10)

decimal_zero : (n : ℕ) → n ≡ 0 → IsRead (digit (n % 10)) n
unfolding IsRead digit is_digits digits_value
decimal_zero n e = rw e (refl, refl)

-- `n` rounds are enough for `n`.
decimal_from-IsRead : (fuel n : ℕ) → n ≤ fuel → IsRead (decimal_from fuel n) n
unfolding decimal_from IsRead
decimal_from-IsRead zero n h = decimal_zero n (omega (arith, h))
decimal_from-IsRead (suc fuel) n h = elim (Bool-cases (ltb n 10)) [
  | inl e ↦ rw e (let (one, last) = digit_lem n 0 (ground (arith, e)) in (one, omega (arith, last)))
  | inr e ↦ rw e (
      subst (IsRead (String.◌++◌ (decimal_from fuel (n / 10)) (digit (n % 10)))) (div-add-mod n 10)
        (IsRead-append (decimal_from fuel (n / 10)) (n / 10) (n % 10) (mod-lt n (omega arith))
          (decimal_from-IsRead fuel (n / 10) (tenth_small n fuel h (ground (arith, e))))))
]

pub is_digits-decimal : (n : ℕ) → is_digits 10 (decimal n) ≡ true
unfolding decimal IsRead
is_digits-decimal n = (decimal_from-IsRead n n (omega arith)).0

-- A number is read back from its decimal print.
pub digits_value-decimal : (n : ℕ) → digits_value 10 0 (decimal n) ≡ n
unfolding decimal IsRead
digits_value-decimal n = (decimal_from-IsRead n n (omega arith)).1
