-- ===== src/Policy/Dns/Change.antt =====
-- ui/src/features/policy/dns-form-model.ts: changing the type of a server or rule, and its action.
pub mod Tables
pub mod Separation
pub mod Effect
use boxui.Base.{
  String, Bool, true, false, not, Option, none, some, List, ◌&&◌, ◌||◌, ◌==◌, if◌then◌else◌,
  is_none,
}
use boxui.Json.{JsonValue, string, JsonObject, lookup}
use boxui.Form.{table_get}
use boxui.Policy.FormModel.{set_policy_path}
use boxui.Policy.Route.Change.{text_at, non_empty}
use boxui.Policy.Dns.Cleanup.{transition_cleanup_fields}
use boxui.Policy.Dns.Cleanup.Fields.{
  CleanupRegistry, dns_server_cleanup_fields, dns_rule_cleanup_fields, dns_action_cleanup_fields,
}

unfoldable pub server_type_of : Option JsonValue → String
server_type_of (some (string s)) = if s == "" then "legacy" else s
server_type_of (some _) = "legacy"
server_type_of none = "legacy"

unfoldable pub infer_dns_server_type : JsonObject → String
unfolding server_type_of
infer_dns_server_type server = server_type_of (lookup "type" server)

-- `Object.hasOwn(registry, type)`
unfoldable pub has_type : CleanupRegistry → String → Bool
unfolding table_get
has_type registry type = not (is_none (table_get registry type))

abbrev differ : Bool → Bool → Bool
differ true b = not b
differ false b = b

-- Exactly one of two known types is the legacy one.
unfoldable pub are_separated : String → String → Bool
unfolding has_type
are_separated current type =
    has_type dns_server_cleanup_fields current
    && has_type dns_server_cleanup_fields type
    && differ (current == "legacy") (type == "legacy")

unfoldable pub change_dns_server_type : JsonObject → String → JsonObject
change_dns_server_type server type =
    let current = infer_dns_server_type server in
    if current == type
    then server
    else set_policy_path
        (transition_cleanup_fields server dns_server_cleanup_fields
          (record { current = current; target = type; share = not (are_separated current type) }))
        "type" (if type == "legacy" then none else some (string type))

unfoldable pub change_dns_rule_type : JsonObject → String → JsonObject
change_dns_rule_type rule type =
    let current = text_at "type" "default" rule in
    if current == type
    then rule
    else set_policy_path
        (transition_cleanup_fields rule dns_rule_cleanup_fields
          (record { current = current; target = type; share = true }))
        "type" (if type == "default" then none else some (string type))

unfoldable pub change_dns_action : JsonObject → String → JsonObject
change_dns_action rule action =
    let explicit = text_at "action" "" rule in
    let current = if explicit == "" then "route" else explicit in
    if explicit == action && not (explicit == "")
    then rule
    else set_policy_path
        (transition_cleanup_fields rule dns_action_cleanup_fields
          (record { current = current; target = action; share = true }))
        "action" (non_empty action)
