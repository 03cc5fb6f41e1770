-- ===== src/Config.antt =====
-- ui/src/features/config/config-update.ts. A configuration is an object. The holes that writing
-- past the end leaves in an array are null, as JSON.stringify prints them.
pub mod Moved
use boxui.Base.{ℕ, zero, suc, String, Bool, true, false, Option, none, some, List, [], ◌∷◌, map}
use boxui.Json.{
  JsonValue, null, array, object, JsonArray, nil, JsonObject, empty, property, items, from_items,
  lookup, insert,
}
use boxui.Policy.Editor.Items.{remove_at}

abbrev pub array_items : Option JsonValue → List JsonValue
array_items (some (array vs)) = items vs
array_items _ = []

-- `configArray`
unfoldable pub config_array : JsonObject → String → List JsonValue
config_array config key = array_items (lookup key config)

unfoldable pub replace_config_section : JsonObject → String → JsonValue → JsonObject
replace_config_section config key value = insert key value config

-- `{ ...current, ...patch }`
unfoldable pub spread : JsonObject → JsonObject → JsonObject
spread o empty = o
spread o (property name value rest) = spread (insert name value o) rest

-- `isJsonObject(current) ? { ...current, ...patch } : patch`
abbrev pub patched : JsonObject → JsonValue → JsonValue
patched patch (object current) = object (spread current patch)
patched patch _ = object patch

abbrev pub patch_at : List JsonValue → ℕ → JsonObject → List JsonValue
patch_at [] zero patch = object patch ∷ []
patch_at [] (suc index) patch = null ∷ patch_at [] index patch
patch_at (v ∷ vs) zero patch = patched patch v ∷ vs
patch_at (v ∷ vs) (suc index) patch = v ∷ patch_at vs index patch

unfoldable pub replace_config_array_item : JsonObject → String → ℕ → JsonObject → JsonObject
unfolding config_array replace_config_section spread
replace_config_array_item config key index patch =
    replace_config_section config key
      (array (from_items (patch_at (config_array config key) index patch)))

unfoldable pub remove_config_array_item : JsonObject → String → ℕ → JsonObject
unfolding config_array replace_config_section remove_at
remove_config_array_item config key index =
    replace_config_section config key
      (array (from_items (remove_at (config_array config key) index)))

module _ {ℓ} {A : Type ℓ} where
  -- `items.splice(from, 1)`: the item there, and what is left is `remove_at`
  abbrev pub item_at : List A → ℕ → Option A
  item_at [] i = none
  item_at (x ∷ xs) zero = some x
  item_at (x ∷ xs) (suc i) = item_at xs i

  -- `items.splice(to, 0, item)`, at the end for a greater index
  unfoldable pub insert_at : List A → ℕ → A → List A
  insert_at [] i item = item ∷ []
  insert_at (x ∷ xs) zero item = item ∷ x ∷ xs
  insert_at (x ∷ xs) (suc i) item = x ∷ insert_at xs i item

  abbrev pub insert_found : List A → ℕ → Option A → List A
  insert_found xs to none = xs
  insert_found xs to (some item) = insert_at xs to item

  unfoldable pub move_to : List A → ℕ → ℕ → List A
  unfolding insert_at remove_at
  move_to xs from to = insert_found (remove_at xs from) to (item_at xs from)

unfoldable pub move_config_array_item : JsonObject → String → ℕ → ℕ → JsonObject
unfolding config_array replace_config_section move_to
move_config_array_item config key from to =
    replace_config_section config key
      (array (from_items (move_to (config_array config key) from to)))
