-- ===== src/Tests/Rules.antt =====
-- A route rule, a rule set, a DNS server and a DNS rule that change their type or their action.
use boxui.Base.{true, false, none, ◌≡◌, refl, All, Memᴰ, ◌==◌}
use boxui.Json.{string, array, nil, cons, JsonObject, empty, property, lookup}
use boxui.Json.Print.{to_string, coalesce}
use boxui.Form.{field, table_get}
use boxui.Policy.Kinds.{PolicyFieldSpec}
use boxui.Policy.FormModel.{get_policy_path}
use boxui.Policy.FormModel.Access.{clashes}
use boxui.Policy.Route.Fields.{route_match_fields, rule_type_fields}
use boxui.Policy.Route.Transition.{unique_fields}
use boxui.Policy.FormModel.Carried.{Carries}
use boxui.Policy.Route.Transition.Fits.{IsCarried}
use boxui.Policy.Route.Change.{
  known_rule_fields, known_action_fields, known_rule_set_fields, text_at, change_route_rule_type,
  change_rule_set_type,
}
use boxui.Policy.Route.Change.Effect.{
  text_at-change_rule_set_type, change_route_rule_type_idempotent, change_route_rule_type-exact,
}
use boxui.Policy.Dns.Cleanup as Cleanup
use boxui.Policy.Dns.Cleanup.Fields.{
  CleanupField, cleanup, dns_server_cleanup_fields, dns_rule_cleanup_fields,
  dns_action_cleanup_fields,
}
use boxui.Policy.Dns.Change.{
  server_type_of, infer_dns_server_type, are_separated, change_dns_server_type,
}
use boxui.Policy.Dns.Change.Effect.{
  ServerSurvives, change_dns_server_type-exact, change_dns_server_type-separated,
}
use boxui.Tests.Evidence.{item_at, item_at-mem, none-All, texts-differ}

abbrev rule : JsonObject
rule =
    property "domain" (array (cons (string "example.org") nil))
      (property "outbound" (string "proxy") (property "note" (string "mine") empty))

rule_set_type_example : text_at "type" "inline" (change_rule_set_type rule "remote") ≡ "remote"
rule_set_type_example = text_at-change_rule_set_type rule "remote"

rule_type_idempotent_example :
    change_route_rule_type (change_route_rule_type rule "logical") "logical"
    ≡ change_route_rule_type rule "logical"
rule_type_idempotent_example = change_route_rule_type_idempotent rule "logical"

abbrev any_field : PolicyFieldSpec
any_field = field "" "" none none

-- The field `domain` of the default rules.
abbrev a_rule_field : PolicyFieldSpec
a_rule_field = item_at any_field known_rule_fields 6

is_default : (text_at "type" "default" rule == "logical") ≡ false
unfolding text_at to_string coalesce lookup
is_default = refl

rule_field-mem : Memᴰ (item_at any_field known_rule_fields 6) known_rule_fields
unfolding known_rule_fields unique_fields
rule_field-mem = item_at-mem any_field known_rule_fields 6 refl

rule_type-exact_example :
    IsCarried rule_type_fields
      (text_at "type" "default" rule)
      "logical"
      a_rule_field.path
      (get_policy_path rule a_rule_field.path)
      (get_policy_path (change_route_rule_type rule "logical") a_rule_field.path)
rule_type-exact_example =
    change_route_rule_type-exact rule "logical" a_rule_field
      (texts-differ (text_at "type" "default" rule) "logical" is_default) rule_field-mem

note_apart : clashes "type" "note" ≡ false
unfolding clashes
note_apart = refl

note_known : All (λ f. clashes f.path "note" ≡ false) known_rule_fields
unfolding clashes known_rule_fields unique_fields
note_known = none-All (λ f. clashes f.path "note") known_rule_fields refl

abbrev an_action_field : PolicyFieldSpec
an_action_field = item_at any_field known_action_fields 0

abbrev a_match_field : PolicyFieldSpec
a_match_field = item_at any_field route_match_fields 4

match_field-mem : Memᴰ (item_at any_field route_match_fields 4) route_match_fields
match_field-mem = item_at-mem any_field route_match_fields 4 refl

abbrev rule_set : JsonObject
rule_set = property "type" (string "local") (property "path" (string "ads.srs") empty)

abbrev a_rule_set_field : PolicyFieldSpec
a_rule_set_field = item_at any_field known_rule_set_fields 1

rule_set_field-mem : Memᴰ (item_at any_field known_rule_set_fields 1) known_rule_set_fields
unfolding known_rule_set_fields unique_fields
rule_set_field-mem = item_at-mem any_field known_rule_set_fields 1 refl

is_local : (text_at "type" "inline" rule_set == "remote") ≡ false
unfolding text_at to_string coalesce lookup
is_local = refl

abbrev server : JsonObject
server = property "type" (string "tls") (
    property "server" (string "1.1.1.1")
      (property "fallback_delay" (string "300ms") (property "tag" (string "one") empty)))

is_text : ("https" == "") ≡ false
is_text = refl

abbrev no_field : CleanupField
no_field = cleanup "" none

-- The field `fallback_delay` of the dialer.
abbrev a_server_field : CleanupField
a_server_field = item_at no_field (Cleanup.unique_fields dns_server_cleanup_fields) 30

server_field-mem :
    Memᴰ
      (item_at no_field (Cleanup.unique_fields dns_server_cleanup_fields) 30)
      (Cleanup.unique_fields dns_server_cleanup_fields)
unfolding Cleanup.unique_fields
server_field-mem = item_at-mem no_field (Cleanup.unique_fields dns_server_cleanup_fields) 30 refl

is_tls : (infer_dns_server_type server == "https") ≡ false
unfolding infer_dns_server_type server_type_of lookup
is_tls = refl

server_type-exact_example :
    Carries
      (ServerSurvives (infer_dns_server_type server) "https" a_server_field.path)
      (get_policy_path server a_server_field.path)
      (get_policy_path (change_dns_server_type server "https") a_server_field.path)
server_type-exact_example =
    change_dns_server_type-exact server "https" a_server_field
      (texts-differ (infer_dns_server_type server) "https" is_tls) server_field-mem

becomes_legacy : are_separated (infer_dns_server_type server) "legacy" ≡ true
unfolding are_separated infer_dns_server_type server_type_of lookup table_get
becomes_legacy = refl

server_type-separated_example :
    get_policy_path (change_dns_server_type server "legacy") a_server_field.path ≡ none
server_type-separated_example =
    change_dns_server_type-separated server "legacy" a_server_field becomes_legacy server_field-mem

abbrev a_dns_rule_field : CleanupField
a_dns_rule_field = item_at no_field (Cleanup.unique_fields dns_rule_cleanup_fields) 4

dns_rule_field-mem :
    Memᴰ
      (item_at no_field (Cleanup.unique_fields dns_rule_cleanup_fields) 4)
      (Cleanup.unique_fields dns_rule_cleanup_fields)
unfolding Cleanup.unique_fields
dns_rule_field-mem = item_at-mem no_field (Cleanup.unique_fields dns_rule_cleanup_fields) 4 refl

abbrev a_dns_action_field : CleanupField
a_dns_action_field = item_at no_field (Cleanup.unique_fields dns_action_cleanup_fields) 0

dns_action_field-mem :
    Memᴰ
      (item_at no_field (Cleanup.unique_fields dns_action_cleanup_fields) 0)
      (Cleanup.unique_fields dns_action_cleanup_fields)
unfolding Cleanup.unique_fields
dns_action_field-mem = item_at-mem no_field (Cleanup.unique_fields dns_action_cleanup_fields) 0 refl
