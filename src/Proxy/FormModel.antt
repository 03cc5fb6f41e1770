-- ===== src/Proxy/FormModel.antt =====
-- ui/src/features/proxy/proxy-form-model.ts: the same operations as the policy form model, in the
-- copy that the proxy forms use. `undefined` is `none`.
pub mod Agreement
pub mod Removal
pub mod Lists
use boxui.Base.{
  ℕ, zero, suc, String, Bool, true, false, not, Option, none, some, List, [], ◌∷◌, ◌==◌,
  if◌then◌else◌, every, any, keep, length, reduce, is_none, or_else,
}
use boxui.Text.{split_dots}
use boxui.Json.{
  JsonValue, null, boolean, string, array, object, nil, JsonObject, empty, lookup, insert, delete,
  is_empty, same_value,
}
use boxui.Form.{FieldWhen, FieldSpec}

-- One round of the `reduce` in `getPath`.
unfoldable pub get_step : Option JsonValue → String → Option JsonValue
get_step (some (object o)) key = lookup key o
get_step (some _) key = none
get_step none key = none

unfoldable pub get_path : JsonObject → String → Option JsonValue
unfolding get_step reduce
get_path o path = reduce get_step (some (object o)) (split_dots path)

-- `child && typeof child === "object" && !Array.isArray(child) ? child : {}`
unfoldable pub object_or_empty : Option JsonValue → JsonObject
object_or_empty (some (object o)) = o
object_or_empty (some _) = empty
object_or_empty none = empty

-- `update(source, index)`, over the keys from `index` on.
unfoldable pub update : JsonObject → List String → Option JsonValue → JsonObject
unfolding object_or_empty
update source [] value = source
update source (key ∷ []) none = delete key source
update source (key ∷ []) (some v) = insert key v source
update source (key ∷ next ∷ rest) value =
    let updated = update (object_or_empty (lookup key source)) (next ∷ rest) value in
    if not (is_empty updated) then insert key (object updated) source else delete key source

unfoldable pub set_path : JsonObject → String → Option JsonValue → JsonObject
unfolding update
set_path o path value = update o (split_dots path) value

unfoldable pub is_falsy : Option JsonValue → Bool
is_falsy none = true
is_falsy (some null) = true
is_falsy (some (boolean b)) = not b
is_falsy (some (string s)) = s == ""
is_falsy (some (array nil)) = true
is_falsy (some _) = false

unfoldable pub is_allowed : List JsonValue → Option JsonValue → Bool
unfolding same_value
is_allowed allowed none = false
is_allowed allowed (some v) = any (λ item. same_value item v) allowed

unfoldable pub matches_when : JsonObject → FieldWhen → Bool
unfolding is_falsy is_allowed
matches_when o rule =
    let value = get_path o rule.path in
    if rule.falsy
    then is_falsy value
    else elim rule.is [ some allowed ↦ is_allowed allowed value | none ↦ not (is_falsy value) ]

module _ {K R : Type 0} where
  unfoldable pub is_field_visible : JsonObject → FieldSpec K R → Bool
  is_field_visible o f = every (matches_when o) f.rules

  unfoldable pub visible_fields : List (FieldSpec K R) → JsonObject → List (FieldSpec K R)
  visible_fields fields o = keep (is_field_visible o) fields

  -- The body of the `for` loop of `pruneInvisibleFields`.
  unfoldable pub prune_field : JsonObject × Bool → FieldSpec K R → JsonObject × Bool
  prune_field (next, changed) f =
      if is_field_visible next f
      then (next, changed)
      else if is_none (get_path next f.path)
      then (next, changed)
      else (set_path next f.path none, true)

  -- The `while` loop; `none` means that the fuel ran out.
  unfoldable pub prune_loop : ℕ → List (FieldSpec K R) → JsonObject → Option JsonObject
  prune_loop zero fields next = none
  prune_loop (suc fuel) fields next =
      let (next', changed) = reduce prune_field (next, false) fields in
      let rest = prune_loop fuel fields next' in if changed then rest else some next'

  -- One pass more than there are fields is enough, as in the policy form model.
  unfoldable pub prune_invisible_fields : JsonObject → List (FieldSpec K R) → JsonObject
  prune_invisible_fields o fields = or_else (prune_loop (suc (length fields)) fields o) o
