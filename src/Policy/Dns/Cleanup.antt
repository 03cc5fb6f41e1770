-- ===== src/Policy/Dns/Cleanup.antt =====
-- ui/src/features/policy/dns-form-cleanup.ts: which fields of a server, rule or action survive a
-- change of its type. A path of a registry with the kind left out takes a string.
pub mod Fields
pub mod Exact
pub mod Fits
use boxui.Base.{
  ℕ, String, Bool, true, false, not, Option, none, some, List, [], ◌∷◌, ◌++◌, ◌&&◌, ◌||◌, ◌==◌, leb,
  if◌then◌else◌, any, every, keep, reduce, is_none, or_else,
}
use Prim.Native.Nat.{◌^◌, ◌-◌}
use text.Mathlib.Text.{starts_with}
use boxui.Json.{
  natural, JsonValue, string, boolean, number, array, object, JsonArray, JsonObject, lookup, items,
}
use boxui.Form.{table_get, table_values}
use boxui.Policy.FormModel.{is_json_object, get_policy_path, set_policy_path}
use boxui.Policy.Route.Transition.{is_string, is_boolean, is_array_of}
use Fields.{CleanupKind, CleanupField, CleanupRegistry, same_kind}

abbrev pub max_safe_integer : ℕ
max_safe_integer = 2 ^ 53 - 1

-- `validInteger(value, maximum)`, for a maximum that is a safe integer.
unfoldable pub valid_integer : JsonValue → ℕ → Bool
valid_integer (number (natural n)) maximum = leb n maximum
valid_integer _ maximum = false

unfoldable pub is_query_type : JsonValue → Bool
unfolding is_string valid_integer
is_query_type v = is_string v || valid_integer v 0xFFFF

unfoldable pub matches_kind : JsonValue → CleanupKind → Bool
unfolding is_string is_boolean is_array_of is_json_object is_query_type valid_integer
matches_kind v CleanupKind.query_type = is_query_type v || is_array_of is_query_type v
matches_kind v CleanupKind.rcode = is_string v || valid_integer v 0xFFF
matches_kind v CleanupKind.routing_mark = is_string v || valid_integer v 0xFFFFFFFF
matches_kind v CleanupKind.boolean = is_boolean v
matches_kind v CleanupKind.number = valid_integer v max_safe_integer
matches_kind v CleanupKind.list = is_string v || is_array_of is_string v
matches_kind v CleanupKind.number_list =
    valid_integer v max_safe_integer || is_array_of (λ item. valid_integer item max_safe_integer) v
matches_kind v CleanupKind.json_object = is_json_object (some v)
matches_kind v CleanupKind.json_array = is_array_of (λ item. true) v
matches_kind v CleanupKind.string = is_string v

unfoldable pub matches_field : JsonValue → CleanupField → Bool
unfolding matches_kind
matches_field v f = matches_kind v (or_else f.kind CleanupKind.string)

-- `uniqueFields`: the fields of all groups, the first of each path.
unfoldable pub add_field : List CleanupField → CleanupField → List CleanupField
add_field fields f = if any (λ g. g.path == f.path) fields then fields else fields ++ f ∷ []

unfoldable pub unique_fields : CleanupRegistry → List CleanupField
unfolding add_field reduce
unique_fields registry = reduce (reduce add_field) [] (table_values registry)

-- `share` is true where the source leaves it out.
pub record CleanupTransition : Type 0 where
  pub current : String
  pub target : String
  pub share : Bool

unfoldable pub shared_by : List CleanupField → CleanupField → Bool
unfolding same_kind
shared_by source f = any (λ g. g.path == f.path && same_kind g.kind f.kind) source

unfoldable pub compatible_fields : CleanupRegistry → CleanupTransition → List CleanupField
unfolding table_get shared_by
compatible_fields registry change =
    let target = or_else (table_get registry change.target) [] in
    let shared : List CleanupField = elim (table_get registry change.current) [
      | none ↦ target
      | some source ↦ keep (shared_by source) target
    ] in
    if change.share then shared else []

unfoldable pub supports_domain_resolver : CleanupRegistry → String → Bool
unfolding table_get
supports_domain_resolver registry type =
    any (λ f. starts_with f.path "domain_resolver.") (or_else (table_get registry type) [])

abbrev pub registry_types : CleanupRegistry → List String
registry_types [] = []
registry_types ((type, fields) ∷ registry) = type ∷ registry_types registry

abbrev pub is_string_value : Option JsonValue → Bool
is_string_value none = false
is_string_value (some v) = is_string v

-- A `domain_resolver` that is neither an object nor, where the new type has a resolver, a server's
-- tag is removed.
unfoldable pub prepare_domain_resolver_root :
    JsonObject → CleanupRegistry → CleanupTransition → JsonObject
prepare_domain_resolver_root o registry change =
    let value = lookup "domain_resolver" o in
    if not (any (supports_domain_resolver registry) (registry_types registry))
    then o
    else if is_none value || is_json_object value
    then o
    else if is_string_value value && supports_domain_resolver registry change.target
    then o
    else set_policy_path o "domain_resolver" none

-- `compatible.get(path)`: of several fields with the path the last counts.
unfoldable pub map_get : List CleanupField → String → Option CleanupField
map_get [] path = none
map_get (f ∷ fields) path =
    let later = map_get fields path in
    elim later [ some g ↦ some g | none ↦ if f.path == path then some f else none ]

-- Whether the body of the `reduce` leaves the field alone.
unfoldable pub is_kept : List CleanupField → CleanupField → Option JsonValue → Bool
unfolding map_get matches_field
is_kept compatible f none = true
is_kept compatible f (some v) = elim (map_get compatible f.path) [
  | none ↦ false
  | some target ↦ matches_field v target
]

unfoldable pub transition_cleanup_field : List CleanupField → JsonObject → CleanupField → JsonObject
unfolding is_kept
transition_cleanup_field compatible next f =
    if is_kept compatible f (get_policy_path next f.path)
    then next
    else set_policy_path next f.path none

unfoldable pub transition_cleanup_fields :
    JsonObject → CleanupRegistry → CleanupTransition → JsonObject
unfolding transition_cleanup_field compatible_fields prepare_domain_resolver_root reduce
transition_cleanup_fields o registry change =
    reduce (transition_cleanup_field (compatible_fields registry change))
      (prepare_domain_resolver_root o registry change) (unique_fields registry)
