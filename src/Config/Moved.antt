-- ===== src/Config/Moved.antt =====
-- Moving an item of a configuration's array.
use mathlib.Core.List.{Permᴰ}
use mathlib.Core.List.Permᴰ
use boxui.Base.{
  ℕ, zero, suc, ◌≤◌, String, false, Option, none, some, List, [], ◌∷◌, ◌≡◌, refl, sym, ap, arith,
  ◌==◌, length, get_elem?, eq_refl, or_else,
}
use boxui.Json.{JsonValue, array, JsonObject, items, from_items, lookup}
use boxui.Json.Laws.{lookup-insert}
use boxui.Policy.Editor.Items.{remove_at}
use boxui.Config.{
  config_array, replace_config_section, item_at, insert_at, insert_found, move_to,
  move_config_array_item,
}

module _ {ℓ} {A : Type ℓ} where
  insert_at-perm : (xs : List A) (i : ℕ) (x : A) → Permᴰ (insert_at xs i x) (x ∷ xs)
  unfolding insert_at
  insert_at-perm [] i x = Permᴰ.refl (x ∷ [])
  insert_at-perm (y ∷ xs) zero x = Permᴰ.refl (x ∷ y ∷ xs)
  insert_at-perm (y ∷ xs) (suc i) x =
      Permᴰ.trans (Permᴰ.cons refl (insert_at-perm xs i x)) (Permᴰ.swap refl refl)

  removed-perm :
      (xs : List A) (i : ℕ) (x : A) → item_at xs i ≡ some x → Permᴰ (x ∷ remove_at xs i) xs
  unfolding remove_at
  removed-perm [] i x h = ground (arith, h)
  removed-perm (y ∷ xs) zero x h = Permᴰ.cons (sym (ap (λ o. or_else o y) h)) (Permᴰ.refl xs)
  removed-perm (y ∷ xs) (suc i) x h =
      Permᴰ.trans (Permᴰ.swap refl refl) (Permᴰ.cons refl (removed-perm xs i x h))

  remove_at_past : (xs : List A) (i : ℕ) → item_at xs i ≡ none → remove_at xs i ≡ xs
  unfolding remove_at
  remove_at_past [] i h = refl
  remove_at_past (y ∷ xs) zero h = ground (arith, h)
  remove_at_past (y ∷ xs) (suc i) h = ap (λ ys. y ∷ ys) (remove_at_past xs i h)

  found-perm :
      (xs : List A) (from to : ℕ) (found : Option A)
      → item_at xs from ≡ found
      → Permᴰ (insert_found (remove_at xs from) to found) xs
  found-perm xs from to none h = rw (remove_at_past xs from h) (Permᴰ.refl xs)
  found-perm xs from to (some x) h =
      Permᴰ.trans (insert_at-perm (remove_at xs from) to x) (removed-perm xs from x h)

  move_to-perm : (xs : List A) (from to : ℕ) → Permᴰ (move_to xs from to) xs
  unfolding move_to
  move_to-perm xs from to = found-perm xs from to (item_at xs from) refl

  get-insert_at :
      (xs : List A) (i : ℕ) (x : A) → i ≤ length xs → get_elem? (insert_at xs i x) i ≡ some x
  unfolding insert_at
  get-insert_at [] zero x h = refl
  get-insert_at [] (suc i) x h = ground (arith, h)
  get-insert_at (y ∷ xs) zero x h = refl
  get-insert_at (y ∷ xs) (suc i) x h = get-insert_at xs i x (omega (arith, h))

items-from_items : (vs : List JsonValue) → items (from_items vs) ≡ vs
items-from_items [] = refl
items-from_items (v ∷ vs) = rw (items-from_items vs) refl

-- Moving an item of a configuration's array reorders that array, losing and doubling nothing, whatever
-- the two indices, and leaves every other section of the configuration as it is.
pub move_config_array_item-perm :
    (config : JsonObject) (key : String) (from to : ℕ) (other : String)
    → Permᴰ (config_array (move_config_array_item config key from to) key) (config_array config key)
      × (key == other ≡ false
          → lookup other (move_config_array_item config key from to) ≡ lookup other config)
unfolding config_array move_config_array_item replace_config_section
move_config_array_item-perm config key from to other =
    let moved = array (from_items (move_to (config_array config key) from to)) in
    (
      rw
          (
            lookup-insert key key moved config,
            eq_refl key,
            items-from_items (move_to (config_array config key) from to),
          )
          (move_to-perm (config_array config key) from to),
      λ ne. rw (lookup-insert key other moved config, ne) refl,
    )
