-- ===== src/Policy/Dialog/Required.antt =====
-- What the dialogs of ui/src/features/policy ask for before they save: route-rule-dialog.tsx,
-- route-rule-set-dialog.tsx, dns-rule-dialog.tsx and dns-server-dialog.tsx.
use boxui.Base.{
  String, Bool, true, false, Option, some, List, [], ◌∷◌, ◌==◌, ◌&&◌, ◌||◌, not, any, includes,
  if◌then◌else◌,
}
use boxui.Text.Trim.{trim, is_blank}
use boxui.Json.{JsonValue, string, JsonObject, lookup}
use boxui.Policy.FormModel.Tags.{is_non_empty_json_object_array}
use boxui.Policy.Route.Change.{text_at}
use boxui.Policy.Dns.Change.{infer_dns_server_type}

-- `current && !values.includes(current) ? [current, ...values] : [...values]`
unfoldable pub options_with_current : List String → String → List String
options_with_current values current =
    if not (is_blank current) && not (includes values current) then current ∷ values else values

-- `typeof value === "string" && value.length > 0`
abbrev pub is_filled : Option JsonValue → Bool
is_filled (some (string s)) = not (is_blank s)
is_filled _ = false

-- `typeof value === "string" && Boolean(value.trim())`
abbrev pub is_filled_trimmed : Option JsonValue → Bool
is_filled_trimmed (some (string s)) = not (is_blank (trim s))
is_filled_trimmed _ = false

-- `value === text`
abbrev pub is_the_text : String → Option JsonValue → Bool
is_the_text text (some (string s)) = s == text
is_the_text text _ = false

-- requiredActionValue of the route rules
unfoldable pub has_route_action_value : JsonObject → Bool
has_route_action_value o =
    let action = text_at "action" "route" o in
    if action == "route" || action == "bypass"
    then is_filled (lookup "outbound" o)
    else if action == "resolve"
    then is_filled (lookup "server" o)
    else true

-- requiredRuleValue and requiredRuleValues
unfoldable pub has_rule_value : JsonObject → Bool
unfolding is_non_empty_json_object_array
has_rule_value o =
    if is_the_text "logical" (lookup "type" o)
    then is_filled (lookup "mode" o) && is_non_empty_json_object_array (lookup "rules" o)
    else true

-- requiredActionValue of the DNS rules
unfoldable pub has_dns_action_value : JsonObject → Bool
has_dns_action_value o =
    if text_at "action" "route" o == "route" then is_filled_trimmed (lookup "server" o) else true

-- requiredFieldsPresent of the rule sets
unfoldable pub has_rule_set_fields : JsonObject → Bool
has_rule_set_fields o =
    if not (is_filled (lookup "tag" o))
    then false
    else if is_the_text "remote" (lookup "type" o)
    then is_filled (lookup "url" o)
    else if is_the_text "local" (lookup "type" o)
    then is_filled (lookup "path" o)
    else true

abbrev pub remote_types : List String
remote_types = "udp" ∷ "tcp" ∷ "tls" ∷ "quic" ∷ "https" ∷ "h3" ∷ []

-- requiredServerValues
unfoldable pub has_server_values : JsonObject → Bool
unfolding infer_dns_server_type
has_server_values o =
    let type = infer_dns_server_type o in
    if not (is_filled_trimmed (lookup "tag" o))
    then false
    else if type == "legacy"
    then is_filled_trimmed (lookup "address" o)
    else if includes remote_types type
    then is_filled_trimmed (lookup "server" o)
    else if type == "fakeip"
    then any is_filled_trimmed (lookup "inet4_range" o ∷ lookup "inet6_range" o ∷ [])
    else true
