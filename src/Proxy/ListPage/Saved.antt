-- ===== src/Proxy/ListPage/Saved.antt =====
-- What the page shows once a change is saved.
use boxui.Base.{
  ℕ, zero, suc, String, false, Option, none, some, List, [], ◌∷◌, ◌++◌, ◌≡◌, ◌==◌, refl, ap, ◌∙◌,
  map, length, leb, eq_refl, arith, if◌then◌else◌,
}
use boxui.Json.{JsonValue, array, object, JsonObject, items, from_items, lookup}
use boxui.Json.Laws.{lookup-insert}
use boxui.Policy.Editor.Items.{remove_at, replace_at}
use boxui.Proxy.ListPage.{
  keep_objects, objects, assign_at, persist, next_items, save_item, delete_item,
}

items-from_items : (vs : List JsonValue) → items (from_items vs) ≡ vs
items-from_items [] = refl
items-from_items (v ∷ vs) = rw (items-from_items vs) refl

keep_objects-map : (os : List JsonObject) → keep_objects (map object os) ≡ os
unfolding keep_objects
keep_objects-map [] = refl
keep_objects-map (o ∷ os) = ap (λ r. o ∷ r) (keep_objects-map os)

-- The list with an item in the place of the one at an index, or at the end.
unfoldable pub placed : List JsonObject → Option ℕ → JsonObject → List JsonObject
unfolding replace_at
placed xs none item = xs ++ item ∷ []
placed xs (some i) item = if leb (length xs) i then xs ++ item ∷ [] else replace_at xs i item

placed-suc :
    (x : JsonObject) (xs : List JsonObject) (i : ℕ) (item : JsonObject)
    → x ∷ placed xs (some i) item ≡ placed (x ∷ xs) (some (suc i)) item
unfolding placed replace_at
placed-suc x xs i item = ground arith

keep_objects-assign_at :
    (xs : List JsonObject) (i : ℕ) (item : JsonObject)
    → keep_objects (assign_at xs i item) ≡ placed xs (some i) item
unfolding keep_objects assign_at placed replace_at
keep_objects-assign_at [] zero item = refl
keep_objects-assign_at [] (suc i) item = keep_objects-assign_at [] i item ∙ ground arith
keep_objects-assign_at (x ∷ xs) zero item = ap (λ r. item ∷ r) (keep_objects-map xs) ∙ ground arith
keep_objects-assign_at (x ∷ xs) (suc i) item =
    ap (λ r. x ∷ r) (keep_objects-assign_at xs i item) ∙ placed-suc x xs i item

keep_objects-next_items :
    (xs : List JsonObject) (index : Option ℕ) (item : JsonObject)
    → keep_objects (next_items xs index item) ≡ placed xs index item
unfolding placed
keep_objects-next_items xs none item = keep_objects-map (xs ++ item ∷ [])
keep_objects-next_items xs (some i) item = keep_objects-assign_at xs i item

objects-persist :
    (config : JsonObject) (key : String) (next : List JsonValue)
    → objects (lookup key (persist config key next)) ≡ keep_objects next
unfolding objects
objects-persist config key next =
    rw (lookup-insert key key (array (from_items next)) config, eq_refl key, items-from_items next)
      refl

-- After an item is saved, the page shows the items that it showed before, with the item in place of
-- the one at its index, or at the end where it is new or its index is past the end; after an item is
-- deleted, it shows the others in their order; and neither changes another section.
pub objects-save_item :
    (config : JsonObject) (key : String) (index : Option ℕ) (i : ℕ) (item : JsonObject)
    (other : String)
    → (key == other) ≡ false
    → (objects (lookup key (save_item config key index item))
        ≡ placed (objects (lookup key config)) index item)
      × (objects (lookup key (delete_item config key i))
          ≡ remove_at (objects (lookup key config)) i)
      × (lookup other (save_item config key index item) ≡ lookup other config)
      × (lookup other (delete_item config key i) ≡ lookup other config)
unfolding save_item delete_item
objects-save_item config key index i item other ne =
    let shown = objects (lookup key config) in
    let saved = next_items shown index item in
    let kept = map object (remove_at shown i) in
    (
      objects-persist config key saved ∙ keep_objects-next_items shown index item,
      objects-persist config key kept ∙ keep_objects-map (remove_at shown i),
      rw (lookup-insert key other (array (from_items saved)) config, ne) refl,
      rw (lookup-insert key other (array (from_items kept)) config, ne) refl,
    )
