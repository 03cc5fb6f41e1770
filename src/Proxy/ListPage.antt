-- ===== src/Proxy/ListPage.antt =====
-- ui/src/features/proxy/proxy-list-page.tsx: the inbounds or outbounds that the page shows, what it
-- saves, and the group that an outbound makes. A hole that writing past the end leaves in an array is
-- null, as JSON.stringify prints it; the index -1 of a new item is `none`.
pub mod Saved
use boxui.Base.{
  ℕ, zero, suc, String, Bool, Option, none, some, List, [], ◌∷◌, ◌++◌, ◌||◌, ◌==◌, map, not,
  includes, or_else, if◌then◌else◌,
}
use boxui.Text.Trim.{is_blank}
use boxui.Json.{
  JsonValue, null, string, array, object, JsonObject, items, from_items, lookup, insert,
}
use boxui.Policy.Editor.Items.{remove_at}

-- The objects among the values.
unfoldable pub keep_objects : List JsonValue → List JsonObject
keep_objects [] = []
keep_objects (object o ∷ vs) = o ∷ keep_objects vs
keep_objects (_ ∷ vs) = keep_objects vs

unfoldable pub objects : Option JsonValue → List JsonObject
unfolding keep_objects
objects (some (array vs)) = keep_objects (items vs)
objects _ = []

-- `next[index] = item`
unfoldable pub assign_at : List JsonObject → ℕ → JsonObject → List JsonValue
assign_at [] zero item = object item ∷ []
assign_at [] (suc i) item = null ∷ assign_at [] i item
assign_at (x ∷ xs) zero item = object item ∷ map object xs
assign_at (x ∷ xs) (suc i) item = object x ∷ assign_at xs i item

-- `{ ...query.data, [configKey]: nextItems }`
abbrev pub persist : JsonObject → String → List JsonValue → JsonObject
persist config key next = insert key (array (from_items next)) config

-- `if (editing.index < 0) next.push(item); else next[editing.index] = item`
abbrev pub next_items : List JsonObject → Option ℕ → JsonObject → List JsonValue
next_items xs none item = map object (xs ++ item ∷ [])
next_items xs (some i) item = assign_at xs i item

unfoldable pub save_item : JsonObject → String → Option ℕ → JsonObject → JsonObject
unfolding objects assign_at
save_item config key index item =
    persist config key (next_items (objects (lookup key config)) index item)

-- onDelete
unfoldable pub delete_item : JsonObject → String → ℕ → JsonObject
unfolding objects remove_at
delete_item config key index =
    persist config key (map object (remove_at (objects (lookup key config)) index))

-- ui/src/lib/api/types.ts
pub record OutboundGroup : Type 0 where
  pub type : String
  pub tag : String
  pub now : String
  pub all : List String

-- `item.outbounds.filter((member) => typeof member === "string")`
unfoldable pub keep_texts : List JsonValue → List String
keep_texts [] = []
keep_texts (string s ∷ vs) = s ∷ keep_texts vs
keep_texts (_ ∷ vs) = keep_texts vs

abbrev pub texts : Option JsonValue → List String
texts (some (array vs)) = keep_texts (items vs)
texts _ = []

abbrev pub default_or : Option JsonValue → String → String
default_or (some (string s)) first = s
default_or _ first = first

-- The group of a type, a tag and members.
abbrev pub group_with : String → String → List String → Option JsonValue → Option OutboundGroup
group_with type tag [] chosen = none
group_with type tag (first ∷ rest) chosen =
    if is_blank tag || not (includes ("selector" ∷ "urltest" ∷ []) type)
    then none
    else some (record { type = type; tag = tag; now = default_or chosen first; all = first ∷ rest })

module _ (to_string : JsonValue → String) where
  -- `String(value ?? "")`
  abbrev pub text_or_empty : Option JsonValue → String
  text_or_empty none = ""
  text_or_empty (some null) = ""
  text_or_empty (some v) = to_string v

  unfoldable pub config_group : JsonObject → Option OutboundGroup
  unfolding keep_texts
  config_group item =
      group_with (text_or_empty (lookup "type" item)) (text_or_empty (lookup "tag" item))
        (texts (lookup "outbounds" item)) (lookup "default" item)
