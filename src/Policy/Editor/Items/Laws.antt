-- ===== src/Policy/Editor/Items/Laws.antt =====
-- The list operations act on the places of a list and never on its items.
use boxui.Base.{
  ℕ, zero, suc, ◌-◌, ◌+◌, Bool, true, false, Option, none, some, List, [], ◌∷◌, ◌++◌, ◌||◌, ◌≡◌,
  refl, sym, arith, nat_eq, leb, length, get_elem?, map, if◌then◌else◌,
}
use boxui.Policy.Editor.Items.{
  Direction, up, down, replace_at, replace_or_append, remove_at, insert_copy, swap_found,
  swap_items, move_item,
}

module _ {ℓ κ} {A : Type ℓ} {B : Type κ} (f : A → B) where
  length-map : (xs : List A) → length (map f xs) ≡ length xs
  length-map [] = refl
  length-map (x ∷ xs) = omega (arith, length-map xs)

  map-replace_at :
      (xs : List A) (i : ℕ) (x : A) → map f (replace_at xs i x) ≡ replace_at (map f xs) i (f x)
  unfolding replace_at
  map-replace_at [] i x = refl
  map-replace_at (y ∷ xs) zero x = refl
  map-replace_at (y ∷ xs) (suc i) x = rw (map-replace_at xs i x) refl

  map-snoc : (xs : List A) (x : A) → map f (xs ++ x ∷ []) ≡ map f xs ++ f x ∷ []
  map-snoc [] x = refl
  map-snoc (y ∷ xs) x = rw (map-snoc xs x) refl

  pub map-replace_or_append :
      (xs : List A) (i : Option ℕ) (x : A)
      → map f (replace_or_append xs i x) ≡ replace_or_append (map f xs) i (f x)
  unfolding replace_or_append
  map-replace_or_append xs none x = map-snoc xs x
  map-replace_or_append xs (some i) x = map-replace_at xs i x

  pub map-remove_at : (xs : List A) (i : ℕ) → map f (remove_at xs i) ≡ remove_at (map f xs) i
  unfolding remove_at
  map-remove_at [] i = refl
  map-remove_at (x ∷ xs) zero = refl
  map-remove_at (x ∷ xs) (suc i) = rw (map-remove_at xs i) refl

  pub map-insert_copy : (xs : List A) (i : ℕ) → map f (insert_copy xs i) ≡ insert_copy (map f xs) i
  unfolding insert_copy
  map-insert_copy [] i = refl
  map-insert_copy (x ∷ xs) zero = refl
  map-insert_copy (x ∷ xs) (suc i) = rw (map-insert_copy xs i) refl

  map_option : Option A → Option B
  map_option none = none
  map_option (some a) = some (f a)

  get_elem?-map : (xs : List A) (i : ℕ) → get_elem? (map f xs) i ≡ map_option (get_elem? xs i)
  unfolding map_option
  get_elem?-map [] i = refl
  get_elem?-map (x ∷ xs) zero = refl
  get_elem?-map (x ∷ xs) (suc i) = get_elem?-map xs i

  map-swap_found :
      (xs : List A) (i j : ℕ) (a b : Option A)
      → map f (swap_found xs i j a b) ≡ swap_found (map f xs) i j (map_option a) (map_option b)
  unfolding map_option
  map-swap_found xs i j none b = refl
  map-swap_found xs i j (some a) none = refl
  map-swap_found xs i j (some a) (some b) =
      rw (map-replace_at (replace_at xs i b) j a, map-replace_at xs i b) refl

  map-swap_items : (xs : List A) (i j : ℕ) → map f (swap_items xs i j) ≡ swap_items (map f xs) i j
  unfolding swap_items
  map-swap_items xs i j =
      rw (get_elem?-map xs i, get_elem?-map xs j)
        (map-swap_found xs i j (get_elem? xs i) (get_elem? xs j))

  map-if :
      (b : Bool) (xs ys : List A)
      → map f (if b then xs else ys) ≡ (if b then map f xs else map f ys)
  map-if true xs ys = refl
  map-if false xs ys = refl

  pub map-move_item :
      (xs : List A) (i : ℕ) (d : Direction) → map f (move_item xs i d) ≡ move_item (map f xs) i d
  unfolding move_item
  map-move_item xs i up =
      rw (length-map xs, sym (map-swap_items xs i (i - 1)))
        (map-if (nat_eq i 0 || leb (length xs) i) xs (swap_items xs i (i - 1)))
  map-move_item xs i down =
      rw (length-map xs, sym (map-swap_items xs i (i + 1)))
        (map-if (leb (length xs) i || leb (length xs) (i + 1)) xs (swap_items xs i (i + 1)))
