-- ===== src/Policy/Route/Lists.antt =====
-- ui/src/features/policy/route-form-model.ts: the lists of rules and rule sets of a route, and their
-- summaries.
pub mod RoundTrip
use Prim.Native.String
use boxui.Base.{
  String, Bool, true, false, Option, none, some, List, [], ◌∷◌, ◌++◌, ◌==◌, if◌then◌else◌,
}
use boxui.Json.{
  JsonValue, boolean, number, string, array, object, JsonArray, nil, cons, JsonObject, lookup,
  insert,
}
use boxui.Json.Print.{number_text, to_string, coalesce}
use boxui.Policy.Route.Change.{text_at}

-- `Array.isArray(value) ? value.filter(isJsonObject) : []`
unfoldable pub filter_objects : JsonArray → List JsonObject
filter_objects nil = []
filter_objects (cons (object o) vs) = o ∷ filter_objects vs
filter_objects (cons _ vs) = filter_objects vs

unfoldable pub object_items : Option JsonValue → List JsonObject
unfolding filter_objects
object_items (some (array vs)) = filter_objects vs
object_items _ = []

-- `[...rules]` as a JSON value
unfoldable pub array_of : List JsonObject → JsonArray
array_of [] = nil
array_of (o ∷ os) = cons (object o) (array_of os)

unfoldable pub route_rules : JsonObject → List JsonObject
route_rules o = object_items (lookup "rules" o)

unfoldable pub route_rule_sets : JsonObject → List JsonObject
route_rule_sets o = object_items (lookup "rule_set" o)

unfoldable pub set_route_rules : JsonObject → List JsonObject → JsonObject
set_route_rules o rules = insert "rules" (array (array_of rules)) o

unfoldable pub set_route_rule_sets : JsonObject → List JsonObject → JsonObject
set_route_rule_sets o rule_sets = insert "rule_set" (array (array_of rule_sets)) o

abbrev pub summary_paths : List String
summary_paths =
    "domain" ∷ "domain_suffix" ∷ "domain_keyword" ∷ "domain_regex" ∷ "source_ip_cidr"
    ∷ "source_ip_is_private" ∷ "ip_cidr" ∷ "ip_is_private" ∷ "source_port" ∷ "source_port_range"
    ∷ "port" ∷ "port_range" ∷ "process_name" ∷ "process_path" ∷ "process_path_regex"
    ∷ "package_name" ∷ "user" ∷ "user_id" ∷ "rule_set" ∷ "rule_set_ip_cidr_match_source" ∷ "inbound"
    ∷ "ip_version" ∷ "network" ∷ "auth_user" ∷ "protocol" ∷ "client" ∷ "clash_mode" ∷ "network_type"
    ∷ "network_is_expensive" ∷ "network_is_constrained" ∷ "wifi_ssid" ∷ "wifi_bssid" ∷ "invert" ∷ []

-- The texts of the items that are texts or numbers.
unfoldable pub summarize_items : JsonArray → List String
unfolding number_text
summarize_items nil = []
summarize_items (cons (string s) vs) = s ∷ summarize_items vs
summarize_items (cons (number n) vs) = number_text n ∷ summarize_items vs
summarize_items (cons _ vs) = summarize_items vs

-- `labels.matchLabel` is the parameter `match_label`.
unfoldable pub summarize_value : (String → String) → String → Option JsonValue → List String
unfolding summarize_items
summarize_value match_label path (some (array vs)) = summarize_items vs
summarize_value match_label path (some (string s)) = s ∷ []
summarize_value match_label path (some (number n)) = number_text n ∷ []
summarize_value match_label path (some (boolean true)) = match_label path ∷ []
summarize_value match_label path _ = []

unfoldable pub summarize_paths : (String → String) → List String → JsonObject → List String
unfolding summarize_value
summarize_paths match_label [] rule = []
summarize_paths match_label (path ∷ paths) rule =
    summarize_value match_label path (lookup path rule) ++ summarize_paths match_label paths rule

pub record RouteRuleSummary : Type 0 where
  pub matches : List String
  pub action : String

-- `action === "route" && typeof rule.outbound === "string" ? rule.outbound : action`
abbrev pub summarize_action : String → Option JsonValue → String
summarize_action action (some (string outbound)) = if action == "route" then outbound else action
summarize_action action _ = action

unfoldable pub summarize_route_rule : (String → String) → JsonObject → RouteRuleSummary
summarize_route_rule match_label rule = record {
  matches = summarize_paths match_label summary_paths rule;
  action = summarize_action (text_at "action" "route" rule) (lookup "outbound" rule);
}

-- A text that is there and not empty.
abbrev pub filled : Option JsonValue → Option String
filled (some (string s)) = if s == "" then none else some s
filled _ = none

-- ` · ${text}`, or nothing
abbrev pub dotted : Option JsonValue → String
dotted v = elim (filled v) [ some s ↦ String.◌++◌ " · " s | none ↦ "" ]

abbrev pub first_text : List (Option JsonValue) → String
first_text [] = ""
first_text (some (string s) ∷ values) = s
first_text (_ ∷ values) = first_text values

pub record RuleSetSummary : Type 0 where
  pub type_text : String
  pub detail : String

unfoldable pub summarize_rule_set : JsonObject → RuleSetSummary
summarize_rule_set rule_set =
    let base_type : String = elim (filled (lookup "type" rule_set)) [
      | some s ↦ s
      | none ↦ "inline"
    ] in
    record {
      type_text = String.◌++◌ base_type (
          String.◌++◌ (dotted (lookup "format" rule_set))
            (dotted (lookup "update_interval" rule_set)));
      detail =
          first_text (lookup "url" rule_set ∷ lookup "path" rule_set ∷ lookup "tag" rule_set ∷ []);
    }
