-- ===== src/Policy/Dns/Form/RoundTrip.antt =====
-- Writing the lists of a DNS section and reading them back.
use boxui.Base.{List, ◌≡◌, ap}
use boxui.Json.{array, JsonObject}
use boxui.Json.Laws.{lookup-insert}
use boxui.Policy.Route.Lists.{object_items, array_of}
use boxui.Policy.Route.Lists.RoundTrip.{object_items-insert}
use boxui.Policy.Dns.Form.{dns_servers, dns_rules, set_dns_servers, set_dns_rules}

-- The servers that are set are read back, and the rules stay as they are.
pub dns_servers-set_dns_servers :
    (o : JsonObject) (servers : List JsonObject)
    → (dns_servers (set_dns_servers o servers) ≡ servers)
      × (dns_rules (set_dns_servers o servers) ≡ dns_rules o)
unfolding dns_servers dns_rules set_dns_servers
dns_servers-set_dns_servers o servers = (
  object_items-insert "servers" servers o,
  ap object_items (lookup-insert "servers" "rules" (array (array_of servers)) o),
)

-- The rules that are set are read back, and the servers stay as they are.
pub dns_rules-set_dns_rules :
    (o : JsonObject) (rules : List JsonObject)
    → (dns_rules (set_dns_rules o rules) ≡ rules)
      × (dns_servers (set_dns_rules o rules) ≡ dns_servers o)
unfolding dns_servers dns_rules set_dns_rules
dns_rules-set_dns_rules o rules = (
  object_items-insert "rules" rules o,
  ap object_items (lookup-insert "rules" "servers" (array (array_of rules)) o),
)
