-- ===== src/Policy/Route/Change.antt =====
-- ui/src/features/policy/route-form-model.ts: changing the type of a rule, its action, and the type
-- of a rule set; the fields that the dialogs manage.
pub mod Keys
pub mod Tables
pub mod Effect
use boxui.Base.{
  String, Bool, not, Option, none, some, List, [], ◌++◌, ◌&&◌, ◌==◌, if◌then◌else◌, keep, or_else,
}
use boxui.Json.{JsonValue, string, JsonObject, lookup}
use boxui.Json.Print.{to_string, coalesce}
use boxui.Form.{FieldSpec, FieldTable, table_get, table_values}
use boxui.Policy.Kinds.{PolicyFieldSpec}
use boxui.Policy.FormModel.{set_policy_path, prune_invisible_policy_fields}
use boxui.Policy.Route.Fields.{
  route_match_fields, route_action_fields, logical_rule_fields, default_rule_fields,
  rule_type_fields, rule_set_fields, route_global_fields,
}
use boxui.Policy.Route.Transition.{has_path, unique_fields, field_transition, transition_fields}

unfoldable pub known_rule_fields : List PolicyFieldSpec
unfolding unique_fields
known_rule_fields = unique_fields (table_values rule_type_fields)

unfoldable pub known_action_fields : List PolicyFieldSpec
unfolding unique_fields
known_action_fields =
    keep (λ f. not (has_path f.path route_match_fields))
      (unique_fields (table_values route_action_fields))

unfoldable pub known_rule_set_fields : List PolicyFieldSpec
unfolding unique_fields
known_rule_set_fields = unique_fields (table_values rule_set_fields)

-- `String(object[key] ?? other)`
unfoldable pub text_at : String → String → JsonObject → String
unfolding coalesce
text_at key other o = to_string (coalesce (lookup key o) (string other))

-- `text || undefined`
unfoldable pub non_empty : String → Option JsonValue
non_empty s = if s == "" then none else some (string s)

unfoldable pub change_route_rule_type : JsonObject → String → JsonObject
change_route_rule_type rule type =
    let current = text_at "type" "default" rule in
    if current == type
    then rule
    else set_policy_path
        (transition_fields rule known_rule_fields (field_transition rule_type_fields current type))
        "type" (if type == "default" then none else some (string type))

unfoldable pub change_route_action : JsonObject → String → JsonObject
change_route_action rule action =
    let explicit = text_at "action" "" rule in
    let current = if explicit == "" then "route" else explicit in
    if explicit == action && not (explicit == "")
    then rule
    else set_policy_path
        (transition_fields rule known_action_fields
          (field_transition route_action_fields current action))
        "action" (non_empty action)

unfoldable pub change_rule_set_type : JsonObject → String → JsonObject
change_rule_set_type rule_set type =
    let current = text_at "type" "inline" rule_set in
    if current == type
    then rule_set
    else set_policy_path
        (transition_fields rule_set known_rule_set_fields
          (field_transition rule_set_fields current type))
        "type" (some (string type))

unfoldable pub managed_route_global_fields : List PolicyFieldSpec
managed_route_global_fields = keep (λ f. not (f.path == "final")) route_global_fields

unfoldable pub apply_route_global_field_change : JsonObject → JsonObject → JsonObject
apply_route_global_field_change o next =
    prune_invisible_policy_fields next managed_route_global_fields

unfoldable pub managed_route_rule_fields : String → String → List PolicyFieldSpec
unfolding table_get
managed_route_rule_fields type action =
    (if type == "logical" then logical_rule_fields else default_rule_fields)
    ++ or_else (table_get route_action_fields action) []

-- `String(next[key] ?? object[key] ?? other)`
unfoldable pub text_of_either : String → String → JsonObject → JsonObject → String
unfolding coalesce
text_of_either key other next o =
    to_string (coalesce (lookup key next) (coalesce (lookup key o) (string other)))

unfoldable pub apply_route_rule_field_change : JsonObject → JsonObject → JsonObject
apply_route_rule_field_change o next =
    let type = text_of_either "type" "default" next o in
    let action = text_of_either "action" "route" next o in
    prune_invisible_policy_fields next (managed_route_rule_fields type action)
