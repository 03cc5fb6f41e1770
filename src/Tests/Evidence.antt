-- ===== src/Tests/Evidence.antt =====
-- Evidence for the hypotheses of the theorems, by evaluation.
use boxui.Base.{
  ℕ, zero, suc, String, Bool, true, false, not, List, [], ◌∷◌, ◌≡◌, ◌≢◌, refl, ◌==◌, eq_iff, Memᴰ,
  All, All-map_imp, every, every-All, arith,
}

-- The item at a position that exists, `other` elsewhere.
abbrev pub item_at {ℓ} : {A : Type ℓ} → A → List A → ℕ → A
item_at other [] i = other
item_at other (x ∷ xs) zero = x
item_at other (x ∷ xs) (suc i) = item_at other xs i

abbrev pub has_position {ℓ} : {A : Type ℓ} → List A → ℕ → Bool
has_position [] i = false
has_position (x ∷ xs) zero = true
has_position (x ∷ xs) (suc i) = has_position xs i

pub item_at-mem {ℓ} :
    {A : Type ℓ} (other : A) (xs : List A) (i : ℕ)
    → has_position xs i ≡ true
    → Memᴰ (item_at other xs i) xs
item_at-mem other [] i h = ground arith
item_at-mem other (x ∷ xs) zero h = Memᴰ.head refl
item_at-mem other (x ∷ xs) (suc i) h = Memᴰ.tail (item_at-mem other xs i h)

not-true : (b : Bool) → not b ≡ true → b ≡ false
not-true b h = ground arith

-- A test that no item passes, each item's outcome.
pub none-All {ℓ} :
    {A : Type ℓ} (test : A → Bool) (xs : List A)
    → every (λ x. not (test x)) xs ≡ true
    → All (λ x. test x ≡ false) xs
none-All test xs h =
    All-map_imp (λ x. not (test x) ≡ true) (λ x. test x ≡ false) (λ x. not-true (test x)) xs
      (every-All (λ x. not (test x)) xs h)

pub texts-differ : (s t : String) → (s == t) ≡ false → s ≢ t
texts-differ s t h e = ground (arith, eq_iff s t)
