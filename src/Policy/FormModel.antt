-- ===== src/Policy/FormModel.antt =====
-- ui/src/features/policy/policy-form-model.ts: reading and writing a dotted path of an object,
-- field visibility, and the removal of invisible fields. `undefined` is `none`.
pub mod Paths
pub mod Access
pub mod Sieve
pub mod Prune
pub mod Groups
pub mod Carried
pub mod Tags
use boxui.Base.{
  ℕ, zero, suc, String, Bool, true, false, not, Option, none, some, List, [], ◌∷◌, ◌&&◌, ◌||◌, ◌==◌,
  if◌then◌else◌, every, any, keep, length, reduce, is_none, or_else,
}
use boxui.Text.{split_dots}
use boxui.Json.{
  JsonValue, null, boolean, number, string, array, object, JsonArray, nil, cons, JsonObject, empty,
  lookup, insert, delete, is_empty, same_value, items,
}
use boxui.Form.{FieldWhen, FieldSpec}

unfoldable pub is_json_object : Option JsonValue → Bool
is_json_object none = false
is_json_object (some (object o)) = true
is_json_object (some _) = false

-- `isJsonObject(value) ? value : {}`
unfoldable pub child_of : Option JsonValue → JsonObject
child_of none = empty
child_of (some (object o)) = o
child_of (some _) = empty

-- One round of the `reduce` in `getPolicyPath`.
unfoldable pub get_step : Option JsonValue → String → Option JsonValue
get_step none key = none
get_step (some (object o)) key = lookup key o
get_step (some _) key = none

unfoldable pub get_keys : Option JsonValue → List String → Option JsonValue
unfolding reduce
get_keys = reduce get_step

unfoldable pub get_policy_path : JsonObject → String → Option JsonValue
get_policy_path o path = get_keys (some (object o)) (split_dots path)

-- The end of `update`: the child is stored, or dropped where nothing is left in it.
unfoldable pub attach : String → JsonObject → JsonObject → JsonObject
attach key updated next =
    if is_empty updated then delete key next else insert key (object updated) next

-- `update(source, index)`, over the keys from `index` on. A path has one key at least.
unfoldable pub update : JsonObject → List String → Option JsonValue → JsonObject
update source [] value = source
update source (key ∷ []) none = delete key source
update source (key ∷ []) (some v) = insert key v source
update source (key ∷ next ∷ rest) value =
    attach key (update (child_of (lookup key source)) (next ∷ rest) value) source

unfoldable pub set_policy_path : JsonObject → String → Option JsonValue → JsonObject
set_policy_path o path value = update o (split_dots path) value

unfoldable pub is_falsy : Option JsonValue → Bool
is_falsy none = true
is_falsy (some null) = true
is_falsy (some (boolean b)) = not b
is_falsy (some (string s)) = s == ""
is_falsy (some (array nil)) = true
is_falsy (some _) = false

-- `allowed.some((item) => Object.is(item, value))`
unfoldable pub is_allowed : List JsonValue → Option JsonValue → Bool
unfolding same_value
is_allowed allowed none = false
is_allowed allowed (some v) = any (λ item. same_value item v) allowed

unfoldable pub matches_when : JsonObject → FieldWhen → Bool
unfolding is_falsy is_allowed
matches_when o rule =
    let value = get_policy_path o rule.path in
    if rule.falsy
    then is_falsy value
    else elim rule.is [ some allowed ↦ is_allowed allowed value | none ↦ not (is_falsy value) ]

module _ {K R : Type 0} where
  unfoldable pub is_policy_field_visible : JsonObject → FieldSpec K R → Bool
  is_policy_field_visible o f = every (matches_when o) f.rules

  unfoldable pub visible_policy_fields : List (FieldSpec K R) → JsonObject → List (FieldSpec K R)
  visible_policy_fields fields o = keep (is_policy_field_visible o) fields

  -- The body of the `for` loop of `pruneInvisiblePolicyFields`, over `next` and `changed`.
  unfoldable pub prune_field : JsonObject × Bool → FieldSpec K R → JsonObject × Bool
  prune_field (next, changed) f =
      if is_policy_field_visible next f
      then (next, changed)
      else if is_none (get_policy_path next f.path)
      then (next, changed)
      else (set_policy_path next f.path none, true)

  -- One pass of the `while` loop.
  unfoldable pub prune_pass : List (FieldSpec K R) → JsonObject → JsonObject × Bool
  prune_pass fields next = reduce prune_field (next, false) fields

  -- The `while` loop; `none` means that the fuel ran out.
  unfoldable pub prune_loop : ℕ → List (FieldSpec K R) → JsonObject → Option JsonObject
  prune_loop zero fields next = none
  prune_loop (suc fuel) fields next =
      let (next', changed) = prune_pass fields next in
      let rest = prune_loop fuel fields next' in if changed then rest else some next'

  -- A pass that changes something removes a field, so one pass more than there are fields is enough
  -- (Prune.antt). The alternative is never taken.
  unfoldable pub prune_invisible_policy_fields : JsonObject → List (FieldSpec K R) → JsonObject
  prune_invisible_policy_fields o fields = or_else (prune_loop (suc (length fields)) fields o) o
