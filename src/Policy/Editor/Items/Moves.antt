-- ===== src/Policy/Editor/Items/Moves.antt =====
-- Moving an item loses none and can be taken back.
use mathlib.Core.List.{Permᴰ}
use mathlib.Core.List.Permᴰ
use boxui.Base.{
  ℕ, zero, suc, ◌-◌, ◌+◌, ◌<◌, Bool, true, false, Option, none, some, List, [], ◌∷◌, ◌||◌, ◌≡◌,
  refl, ap, ◌∙◌, arith, nat_eq, leb, length, get_elem?, if◌then◌else◌,
}
use boxui.Policy.Editor.Items.{Direction, up, down, replace_at, swap_found, swap_items, move_item}

pred_suc : (i : ℕ) → suc i - 1 ≡ i
pred_suc i = omega arith

add_one : (i : ℕ) → i + 1 ≡ suc i
add_one i = omega arith

module _ {ℓ} {A : Type ℓ} where
  -- The items at two neighbouring places exchanged.
  abbrev swap_adjacent : List A → ℕ → List A
  swap_adjacent [] i = []
  swap_adjacent (x ∷ []) zero = x ∷ []
  swap_adjacent (x ∷ y ∷ xs) zero = y ∷ x ∷ xs
  swap_adjacent (x ∷ xs) (suc i) = x ∷ swap_adjacent xs i

  swap_found-cons :
      (x : A) (xs : List A) (i j : ℕ) (a b : Option A)
      → swap_found (x ∷ xs) (suc i) (suc j) a b ≡ x ∷ swap_found xs i j a b
  unfolding replace_at
  swap_found-cons x xs i j none b = refl
  swap_found-cons x xs i j (some a) none = refl
  swap_found-cons x xs i j (some a) (some b) = refl

  swap_items-down : (xs : List A) (i : ℕ) → swap_items xs i (suc i) ≡ swap_adjacent xs i
  unfolding swap_items replace_at
  swap_items-down [] i = refl
  swap_items-down (x ∷ []) zero = refl
  swap_items-down (x ∷ y ∷ xs) zero = refl
  swap_items-down (x ∷ xs) (suc i) =
      swap_found-cons x xs i (suc i) (get_elem? xs i) (get_elem? xs (suc i))
      ∙ ap (λ ys. x ∷ ys) (swap_items-down xs i)

  swap_items-up : (xs : List A) (i : ℕ) → swap_items xs (suc i) i ≡ swap_adjacent xs i
  unfolding swap_items replace_at
  swap_items-up [] i = refl
  swap_items-up (x ∷ []) zero = refl
  swap_items-up (x ∷ y ∷ xs) zero = refl
  swap_items-up (x ∷ xs) (suc i) =
      swap_found-cons x xs (suc i) i (get_elem? xs (suc i)) (get_elem? xs i)
      ∙ ap (λ ys. x ∷ ys) (swap_items-up xs i)

  swap_adjacent-perm : (xs : List A) (i : ℕ) → Permᴰ (swap_adjacent xs i) xs
  swap_adjacent-perm [] i = Permᴰ.refl []
  swap_adjacent-perm (x ∷ []) zero = Permᴰ.refl (x ∷ [])
  swap_adjacent-perm (x ∷ y ∷ xs) zero = Permᴰ.swap refl refl
  swap_adjacent-perm (x ∷ xs) (suc i) = Permᴰ.cons refl (swap_adjacent-perm xs i)

  swap_adjacent_twice : (xs : List A) (i : ℕ) → swap_adjacent (swap_adjacent xs i) i ≡ xs
  swap_adjacent_twice [] i = refl
  swap_adjacent_twice (x ∷ []) zero = refl
  swap_adjacent_twice (x ∷ y ∷ xs) zero = refl
  swap_adjacent_twice (x ∷ xs) (suc i) = ap (λ ys. x ∷ ys) (swap_adjacent_twice xs i)

  length-swap_adjacent : (xs : List A) (i : ℕ) → length (swap_adjacent xs i) ≡ length xs
  length-swap_adjacent [] i = refl
  length-swap_adjacent (x ∷ []) zero = refl
  length-swap_adjacent (x ∷ y ∷ xs) zero = refl
  length-swap_adjacent (x ∷ xs) (suc i) = omega (arith, length-swap_adjacent xs i)

  if-perm : (b : Bool) (xs ys : List A) → Permᴰ ys xs → Permᴰ (if b then xs else ys) xs
  if-perm true xs ys p = Permᴰ.refl xs
  if-perm false xs ys p = p

  -- Moving an item up or down keeps all items of the list, each as often as before, whatever the
  -- index.
  pub move_item-perm : (xs : List A) (i : ℕ) (d : Direction) → Permᴰ (move_item xs i d) xs
  unfolding move_item
  move_item-perm xs zero up = Permᴰ.refl xs
  move_item-perm xs (suc i) up =
      if-perm (nat_eq (suc i) 0 || leb (length xs) (suc i)) xs (swap_items xs (suc i) (suc i - 1))
        (rw (pred_suc i, swap_items-up xs i) (swap_adjacent-perm xs i))
  move_item-perm xs i down =
      if-perm (leb (length xs) i || leb (length xs) (i + 1)) xs (swap_items xs i (i + 1))
        (rw (add_one i, swap_items-down xs i) (swap_adjacent-perm xs i))

  move_item-down :
      (xs : List A) (i : ℕ) → suc i < length xs → move_item xs i down ≡ swap_adjacent xs i
  unfolding move_item
  move_item-down xs i h =
      let test : (leb (length xs) i || leb (length xs) (i + 1)) ≡ false = ground arith in
      rw (test, add_one i) (swap_items-down xs i)

  move_item-up :
      (xs : List A) (i : ℕ) → suc i < length xs → move_item xs (suc i) up ≡ swap_adjacent xs i
  unfolding move_item
  move_item-up xs i h =
      let test : (nat_eq (suc i) 0 || leb (length xs) (suc i)) ≡ false = ground arith in
      rw (test, pred_suc i) (swap_items-up xs i)

  -- An item that is not the last, moved down and then up again, stands where it stood, and so do the
  -- others.
  pub move_item_back :
      (xs : List A) (i : ℕ) → suc i < length xs → move_item (move_item xs i down) (suc i) up ≡ xs
  move_item_back xs i h =
      rw
        (
          move_item-down xs i h,
          move_item-up (swap_adjacent xs i) i (rw (length-swap_adjacent xs i) h),
        )
        (swap_adjacent_twice xs i)
