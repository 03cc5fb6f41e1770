-- ===== src/Policy/Editor/Items.antt =====
-- The list operations of ui/src/features/policy/route-visual-editor.tsx and dns-visual-editor.tsx,
-- and moveItem of policy-form-model.ts. An index is that of a card, thus of the list; a copy past the
-- end, where the source would insert undefined, leaves the list as it is.
pub mod Laws
pub mod Moves
use boxui.Base.{
  ℕ, zero, suc, ◌-◌, ◌+◌, Bool, true, false, Option, none, some, List, [], ◌∷◌, ◌++◌, ◌||◌, nat_eq,
  leb, length, get_elem?, if◌then◌else◌,
}

-- `-1 | 1`
pub data Direction : Type 0 where
  up down : Direction

module _ {ℓ} {A : Type ℓ} where
  -- `items.map((current, currentIndex) => currentIndex === index ? item : current)`
  unfoldable pub replace_at : List A → ℕ → A → List A
  replace_at [] i item = []
  replace_at (x ∷ xs) zero item = item ∷ xs
  replace_at (x ∷ xs) (suc i) item = x ∷ replace_at xs i item

  unfoldable pub replace_or_append : List A → Option ℕ → A → List A
  unfolding replace_at
  replace_or_append xs none item = xs ++ item ∷ []
  replace_or_append xs (some i) item = replace_at xs i item

  -- `items.filter((_, itemIndex) => itemIndex !== index)`
  unfoldable pub remove_at : List A → ℕ → List A
  remove_at [] i = []
  remove_at (x ∷ xs) zero = xs
  remove_at (x ∷ xs) (suc i) = x ∷ remove_at xs i

  -- `[...items.slice(0, index + 1), clone(items[index]), ...items.slice(index + 1)]`: insertCopy, and
  -- insertMetadataCopy, since values have no identity here.
  unfoldable pub insert_copy : List A → ℕ → List A
  insert_copy [] i = []
  insert_copy (x ∷ xs) zero = x ∷ x ∷ xs
  insert_copy (x ∷ xs) (suc i) = x ∷ insert_copy xs i

  -- `[next[index], next[target]] = [next[target], next[index]]`
  abbrev pub swap_found : List A → ℕ → ℕ → Option A → Option A → List A
  swap_found xs i j none b = xs
  swap_found xs i j (some a) none = xs
  swap_found xs i j (some a) (some b) = replace_at (replace_at xs i b) j a

  unfoldable pub swap_items : List A → ℕ → ℕ → List A
  unfolding replace_at
  swap_items xs i j = swap_found xs i j (get_elem? xs i) (get_elem? xs j)

  unfoldable pub move_item : List A → ℕ → Direction → List A
  unfolding swap_items
  move_item xs i up = if nat_eq i 0 || leb (length xs) i then xs else swap_items xs i (i - 1)
  move_item xs i down =
      if leb (length xs) i || leb (length xs) (i + 1) then xs else swap_items xs i (i + 1)
