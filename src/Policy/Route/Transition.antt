-- ===== src/Policy/Route/Transition.antt =====
-- ui/src/features/policy/route-form-model.ts: which fields survive a change of type or action.
-- A `Map` from a path to a field is a list of fields, of which the last with the path counts.
pub mod Exact
pub mod Values
pub mod Fits
use boxui.Base.{
  String, Bool, true, false, not, Option, none, some, List, [], ◌∷◌, ◌++◌, ◌&&◌, ◌||◌, ◌==◌,
  if◌then◌else◌, any, every, keep, reduce, is_none, or_else,
}
use boxui.Json.{
  Number, natural, other_finite, infinite, JsonValue, null, boolean, number, string, array, object,
  JsonObject, lookup, insert, items, from_items,
}
use boxui.Json.Print.{to_string, coalesce}
use boxui.Form.{FieldSpec, FieldTable, table_get, table_values}
use boxui.Policy.Kinds.{PolicyFieldKind as Kind, PolicyFieldRef as Ref, PolicyFieldSpec, same_kind}
use boxui.Policy.FormModel.{
  is_json_object, get_policy_path, set_policy_path, prune_invisible_policy_fields,
}

-- `uniqueFields`: the fields of all groups, the first of each path.
unfoldable pub has_path : String → List PolicyFieldSpec → Bool
has_path path fields = any (λ f. f.path == path) fields

unfoldable pub add_field : List PolicyFieldSpec → PolicyFieldSpec → List PolicyFieldSpec
unfolding has_path
add_field fields f = if has_path f.path fields then fields else fields ++ f ∷ []

unfoldable pub unique_fields : List (List PolicyFieldSpec) → List PolicyFieldSpec
unfolding add_field reduce
unique_fields groups = reduce (reduce add_field) [] groups

-- `typeof value === "number" && Number.isFinite(value)`
unfoldable pub is_finite_number : JsonValue → Bool
is_finite_number (number (natural n)) = true
is_finite_number (number (other_finite s)) = true
is_finite_number _ = false

unfoldable pub is_string : JsonValue → Bool
is_string (string s) = true
is_string _ = false

unfoldable pub is_boolean : JsonValue → Bool
is_boolean (boolean b) = true
is_boolean _ = false

-- `Array.isArray(value) && value.every(test)`
unfoldable pub is_array_of : (JsonValue → Bool) → JsonValue → Bool
is_array_of test (array vs) = every test (items vs)
is_array_of test _ = false

unfoldable pub is_primitive : JsonValue → Bool
is_primitive (string s) = true
is_primitive (number n) = true
is_primitive (boolean b) = true
is_primitive _ = false

unfoldable pub matches_kind : JsonValue → Option Kind → Bool
unfolding is_finite_number is_string is_boolean is_array_of is_primitive is_json_object
matches_kind v (some Kind.boolean) = is_boolean v
matches_kind v (some Kind.number) = is_finite_number v
matches_kind v (some Kind.list) = is_string v || is_array_of is_string v
matches_kind v (some Kind.network_multi) = is_string v || is_array_of is_string v
matches_kind v (some Kind.ref_multi) = is_string v || is_array_of is_string v
matches_kind v (some Kind.number_list) = is_finite_number v || is_array_of is_finite_number v
matches_kind v (some Kind.json_object) = is_json_object (some v)
matches_kind v (some Kind.json_array) = is_array_of (λ item. true) v
matches_kind v _ = is_primitive v

unfoldable pub matches_field : Option JsonValue → PolicyFieldSpec → Bool
unfolding matches_kind
matches_field none f = true
matches_field (some v) f = matches_kind v f.kind

pub record FieldTransition : Type 0 where
  pub source : List PolicyFieldSpec
  pub target : List PolicyFieldSpec
  pub source_known : Bool

-- `fieldTransition(fields, source, target)`
unfoldable pub field_transition : FieldTable Kind Ref → String → String → FieldTransition
unfolding table_get
field_transition fields source target = record {
  source = or_else (table_get fields source) [];
  target = or_else (table_get fields target) [];
  source_known = not (is_none (table_get fields source));
}

unfoldable pub shared_by : List PolicyFieldSpec → PolicyFieldSpec → Bool
unfolding same_kind
shared_by source f = any (λ g. g.path == f.path && same_kind g.kind f.kind) source

unfoldable pub compatible_fields : FieldTransition → List PolicyFieldSpec
unfolding shared_by
compatible_fields transition =
    if transition.source_known
    then keep (shared_by transition.source) transition.target
    else transition.target

-- `compatible.get(path)`
unfoldable pub map_get : List PolicyFieldSpec → String → Option PolicyFieldSpec
map_get [] path = none
map_get (f ∷ fields) path =
    let later = map_get fields path in
    elim later [ some g ↦ some g | none ↦ if f.path == path then some f else none ]

-- The body of the `reduce` in `transitionFields`.
unfoldable pub transition_field : List PolicyFieldSpec → JsonObject → PolicyFieldSpec → JsonObject
unfolding map_get matches_field
transition_field compatible next f =
    let kept : Bool = elim (map_get compatible f.path) [
      | none ↦ false
      | some target ↦ matches_field (get_policy_path next f.path) target
    ] in
    if kept then next else set_policy_path next f.path none

unfoldable pub transition_fields : JsonObject → List PolicyFieldSpec → FieldTransition → JsonObject
unfolding transition_field compatible_fields reduce
transition_fields o known transition =
    reduce (transition_field (compatible_fields transition)) o known
