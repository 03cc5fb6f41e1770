-- ===== src/Policy/Dialog/Sections.antt =====
-- The fields that the dialogs of ui/src/features/policy show in each of their sections:
-- route-rule-dialog.tsx, dns-rule-dialog.tsx and dns-server-dialog.tsx.
pub mod Covered
use boxui.Base.{
  String, Bool, true, false, Option, none, some, List, [], ◌∷◌, ◌==◌, ◌&&◌, ◌||◌, not, keep,
  includes, or_else,
}
use boxui.Form.{table_get}
use boxui.Policy.Kinds.{PolicyFieldSpec}
use boxui.Policy.Route.Fields.{route_match_fields}
use boxui.Policy.Dns.Fields.{dns_rule_match_fields}
use boxui.Policy.Dns.ServerFields.{dns_server_fields}

-- `fields.filter((field) => paths.includes(field.path))`
unfoldable pub fields_at : List PolicyFieldSpec → List String → List PolicyFieldSpec
fields_at fields paths = keep (λ f. includes paths f.path) fields

abbrev pub route_basic_paths : List String
route_basic_paths =
    "type" ∷ "inbound" ∷ "ip_version" ∷ "network" ∷ "auth_user" ∷ "protocol" ∷ "client" ∷ "invert"
    ∷ []

abbrev pub route_domain_paths : List String
route_domain_paths =
    "domain" ∷ "domain_suffix" ∷ "domain_keyword" ∷ "domain_regex" ∷ "source_ip_cidr"
    ∷ "source_ip_is_private" ∷ "ip_cidr" ∷ "ip_is_private" ∷ []

abbrev pub route_process_paths : List String
route_process_paths =
    "source_port" ∷ "source_port_range" ∷ "port" ∷ "port_range" ∷ "process_name" ∷ "process_path"
    ∷ "process_path_regex" ∷ "package_name" ∷ "user" ∷ "user_id" ∷ []

abbrev pub route_environment_paths : List String
route_environment_paths =
    "rule_set" ∷ "rule_set_ip_cidr_match_source" ∷ "clash_mode" ∷ "network_type"
    ∷ "network_is_expensive" ∷ "network_is_constrained" ∷ "wifi_ssid" ∷ "wifi_bssid" ∷ []

abbrev pub dns_basic_paths : List String
dns_basic_paths =
    "inbound" ∷ "ip_version" ∷ "query_type" ∷ "network" ∷ "auth_user" ∷ "protocol" ∷ []

abbrev pub dns_domain_paths : List String
dns_domain_paths =
    "domain" ∷ "domain_suffix" ∷ "domain_keyword" ∷ "domain_regex" ∷ "source_ip_cidr"
    ∷ "source_ip_is_private" ∷ "ip_cidr" ∷ "ip_is_private" ∷ []

abbrev pub dns_process_paths : List String
dns_process_paths =
    "source_port" ∷ "source_port_range" ∷ "port" ∷ "port_range" ∷ "process_name" ∷ "process_path"
    ∷ "process_path_regex" ∷ "package_name" ∷ "user" ∷ "user_id" ∷ "outbound" ∷ "clash_mode"
    ∷ "rule_set" ∷ "rule_set_ip_cidr_match_source" ∷ "network_type" ∷ "network_is_expensive"
    ∷ "network_is_constrained" ∷ "wifi_ssid" ∷ "wifi_bssid" ∷ []

-- The lists of paths of dns-server-dialog.tsx.
abbrev pub basic_paths : List String
basic_paths = "address" ∷ "server" ∷ "server_port" ∷ []

abbrev pub tls_paths : List String
tls_paths =
    "tls.enabled" ∷ "tls.disable_sni" ∷ "tls.server_name" ∷ "tls.insecure" ∷ "tls.alpn"
    ∷ "tls.certificate" ∷ "tls.certificate_path" ∷ []

abbrev pub http_paths : List String
http_paths = "path" ∷ "method" ∷ "headers" ∷ []

abbrev pub special_paths : List (String × List String)
special_paths =
    ("local", "prefer_go" ∷ [])
    ∷ ("hosts", "path" ∷ "predefined" ∷ [])
    ∷ ("dhcp", "prefer_go" ∷ "interface" ∷ [])
    ∷ ("fakeip", "inet4_range" ∷ "inet6_range" ∷ [])
    ∷ []

-- `specialPaths[type]?.has(path)`
abbrev pub special_of : List (String × List String) → String → List String
special_of [] type = []
special_of ((name, paths) ∷ rest) type = elim (name == type) [
  | true ↦ paths
  | false ↦ special_of rest type
]

pub data ServerSection : Type 0 where
  basic dialer tls special : ServerSection

-- The test of serverFields for a section.
unfoldable pub is_in_section : String → ServerSection → String → Bool
is_in_section type basic path = includes basic_paths path
is_in_section type tls path =
    includes tls_paths path || includes ("https" ∷ "h3" ∷ []) type && includes http_paths path
is_in_section type special path = includes (special_of special_paths type) path
is_in_section type dialer path =
    not (includes basic_paths path)
    && not (includes tls_paths path)
    && not (includes http_paths path)
    && not (includes (special_of special_paths type) path)

unfoldable pub server_fields : String → ServerSection → List PolicyFieldSpec
unfolding is_in_section table_get
server_fields type section_name =
    keep (λ f. is_in_section type section_name f.path)
      (or_else (table_get dns_server_fields type) [])
