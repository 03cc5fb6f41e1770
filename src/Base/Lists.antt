-- ===== src/Base/Lists.antt =====
-- Lists over the native numbers, and the predicates on lists that statements read.
use Prim.Native.Nat.{ℕ, suc, ◌+◌}
use mathlib.Core.Path.{◌≡◌, sym, subst}
use mathlib.Core.Bool.{Bool, true, false, ◌&&◌, ◌||◌}
use mathlib.Core.Logic.{◌⊎◌, inl, inr}
use mathlib.Core.Option.{Option, none, some}
use mathlib.Core.List.{List, [], ◌∷◌, ◌++◌, Memᴰ}
use native.Mathlib.Omega.{arith}
use Prim.Native.String.{String}
use text.Mathlib.Text.{◌==◌}
use boxui.Base.Tests.{if◌then◌else◌}

-- `items.reduce(step, state)`, and a `for` loop over `items` with its variables in `state`.
unfoldable pub reduce {ℓ κ} : {A : Type ℓ} {S : Type κ} → (S → A → S) → S → List A → S
reduce step state [] = state
reduce step state (x ∷ xs) = reduce step (step state x) xs

module _ {ℓ} {A : Type ℓ} where
  abbrev pub length : List A → ℕ
  length [] = 0
  length (x ∷ xs) = suc (length xs)

  abbrev pub get_elem? : List A → ℕ → Option A
  get_elem? [] i = none
  get_elem? (x ∷ xs) Prim.Native.Nat.zero = some x
  get_elem? (x ∷ xs) (suc i) = get_elem? xs i

  -- `items.every(test)`
  abbrev pub every : (A → Bool) → List A → Bool
  every test [] = true
  every test (x ∷ xs) = test x && every test xs

  -- `items.some(test)`
  abbrev pub any : (A → Bool) → List A → Bool
  any test [] = false
  any test (x ∷ xs) = test x || any test xs

  -- `items.filter(test)`
  abbrev pub keep : (A → Bool) → List A → List A
  keep test [] = []
  keep test (x ∷ xs) = let rest = keep test xs in if test x then x ∷ rest else rest

  -- `items.find(test)`
  abbrev pub find : (A → Bool) → List A → Option A
  find test [] = none
  find test (x ∷ xs) = if test x then some x else find test xs

  abbrev pub All {κ} : (A → Type κ) → List A → Type κ
  All P [] = Unit
  All P (x ∷ xs) = P x × All P xs

  pub length-append : (xs ys : List A) → length (xs ++ ys) ≡ length xs + length ys
  length-append [] ys = omega arith
  length-append (x ∷ xs) ys = omega (arith, length-append xs ys)

  pub All-append {κ} : (P : A → Type κ) (xs ys : List A) → All P xs → All P ys → All P (xs ++ ys)
  All-append P [] ys h k = k
  All-append P (x ∷ xs) ys (p, h) k = (p, All-append P xs ys h k)

  pub All-split {κ} : (P : A → Type κ) (xs ys : List A) → All P (xs ++ ys) → All P xs × All P ys
  All-split P [] ys h = (tt, h)
  All-split P (x ∷ xs) ys (p, h) = let (hs, ks) = All-split P xs ys h in ((p, hs), ks)

  -- What holds of everything holds of each.
  pub All-of {κ} : (P : A → Type κ) → ((x : A) → P x) → (xs : List A) → All P xs
  All-of P f [] = tt
  All-of P f (x ∷ xs) = (f x, All-of P f xs)

  pub All-map_imp {κ μ} :
      (P : A → Type κ) (Q : A → Type μ)
      → ((x : A) → P x → Q x)
      → (xs : List A) → All P xs
      → All Q xs
  All-map_imp P Q f [] h = tt
  All-map_imp P Q f (x ∷ xs) (p, h) = (f x p, All-map_imp P Q f xs h)

  pub All-mem {κ} : (P : A → Type κ) (xs : List A) {x : A} → All P xs → Memᴰ x xs → P x
  All-mem P [] h m = elim m [ ]
  All-mem P (y ∷ ys) (p, h) (Memᴰ.head e) = subst P (sym e) p
  All-mem P (y ∷ ys) (p, h) (Memᴰ.tail m) = All-mem P ys h m

  pub Memᴰ-split : (xs ys : List A) {x : A} → Memᴰ x (xs ++ ys) → Memᴰ x xs ⊎ Memᴰ x ys
  Memᴰ-split [] ys m = inr m
  Memᴰ-split (z ∷ xs) ys (Memᴰ.head e) = inl (Memᴰ.head e)
  Memᴰ-split (z ∷ xs) ys (Memᴰ.tail m) = elim (Memᴰ-split xs ys m) [
    | inl here ↦ inl (Memᴰ.tail here)
    | inr there ↦ inr there
  ]

  pub every-All :
      (test : A → Bool) (xs : List A) → every test xs ≡ true → All (λ x. test x ≡ true) xs
  every-All test [] h = tt
  every-All test (x ∷ xs) h = (ground arith, every-All test xs (ground arith))

-- `set.has(text)` and `items.includes(text)`
abbrev pub includes : List String → String → Bool
includes xs s = any (λ x. x == s) xs

-- `[...new Set(items)]`: the first of each.
unfoldable pub add_new : List String → String → List String
add_new seen s = if includes seen s then seen else seen ++ s ∷ []

unfoldable pub distinct : List String → List String
unfolding add_new reduce
distinct xs = reduce add_new [] xs
