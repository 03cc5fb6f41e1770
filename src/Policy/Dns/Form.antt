-- ===== src/Policy/Dns/Form.antt =====
-- ui/src/features/policy/dns-form-model.ts: the lists of servers and rules, and what an edit of each
-- form prunes.
pub mod RoundTrip
use boxui.Base.{
  String, Bool, true, false, Option, none, some, List, [], ◌∷◌, ◌++◌, or_else, if◌then◌else◌,
}
use boxui.Json.{JsonValue, JsonObject, boolean, array, object, lookup, insert}
use boxui.Form.{table_get}
use boxui.Policy.FormModel.{get_policy_path, set_policy_path, prune_invisible_policy_fields}
use boxui.Policy.Route.Lists.{object_items, array_of}
use boxui.Policy.Route.Change.{text_of_either}
use boxui.Policy.Dns.Fields.{
  dns_global_fields, legacy_fake_ip_fields, dns_rule_match_fields, dns_action_fields,
}
use boxui.Policy.Dns.ServerFields.{dns_server_fields}

unfoldable pub dns_servers : JsonObject → List JsonObject
unfolding object_items
dns_servers o = object_items (lookup "servers" o)

unfoldable pub dns_rules : JsonObject → List JsonObject
unfolding object_items
dns_rules o = object_items (lookup "rules" o)

unfoldable pub set_dns_servers : JsonObject → List JsonObject → JsonObject
unfolding array_of
set_dns_servers o servers = insert "servers" (array (array_of servers)) o

unfoldable pub set_dns_rules : JsonObject → List JsonObject → JsonObject
unfolding array_of
set_dns_rules o rules = insert "rules" (array (array_of rules)) o

unfoldable pub apply_dns_global_field_change : JsonObject → JsonObject → JsonObject
apply_dns_global_field_change o next = prune_invisible_policy_fields next dns_global_fields

-- A form without fake IP stores no `enabled` that is false.
abbrev pub drop_disabled : Option JsonValue → JsonObject → JsonObject
drop_disabled (some (boolean false)) next = set_policy_path next "fakeip.enabled" none
drop_disabled _ next = next

unfoldable pub apply_dns_fake_ip_field_change : JsonObject → JsonObject → JsonObject
apply_dns_fake_ip_field_change o next =
    prune_invisible_policy_fields (drop_disabled (get_policy_path next "fakeip.enabled") next)
      legacy_fake_ip_fields

unfoldable pub apply_dns_rule_field_change : JsonObject → JsonObject → JsonObject
unfolding table_get
apply_dns_rule_field_change o next =
    let action = text_of_either "action" "route" next o in
    prune_invisible_policy_fields next
      (dns_rule_match_fields ++ or_else (table_get dns_action_fields action) [])

unfoldable pub apply_dns_server_field_change : String → JsonObject → JsonObject
unfolding table_get
apply_dns_server_field_change type next =
    prune_invisible_policy_fields next (or_else (table_get dns_server_fields type) [])
