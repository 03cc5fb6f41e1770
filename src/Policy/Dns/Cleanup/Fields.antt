-- ===== src/Policy/Dns/Cleanup/Fields.antt =====
-- The cleanup tables of ui/src/features/policy/dns-form-cleanup.ts: for each server type, rule type
-- and action, the paths that it has and the kind of value that each takes.
use mathlib.Core.Bool.{decide}
use boxui.Base.{String, Bool, Option, none, some, List, [], ◌∷◌, ◌++◌}

pub data CleanupKind : Type 0 where
  string boolean number list number_list json_object json_array : CleanupKind
  query_type rcode routing_mark : CleanupKind

pub record CleanupField : Type 0 where
  pub path : String
  pub kind : Option CleanupKind

abbrev pub CleanupRegistry : Type 0
CleanupRegistry = List (String × List CleanupField)

abbrev pub cleanup : String → Option CleanupKind → CleanupField
cleanup path kind = record { path = path; kind = kind }

unfoldable pub OptionCleanupKind-discrete : Discrete (Option CleanupKind)
OptionCleanupKind-discrete = hlevel

-- `source[1] === field[1]`
unfoldable pub same_kind : Option CleanupKind → Option CleanupKind → Bool
unfolding decide OptionCleanupKind-discrete
same_kind a b = decide (OptionCleanupKind-discrete a b)

abbrev pub domain_resolver_fields : List CleanupField
domain_resolver_fields =
    cleanup "domain_resolver.server" none
    ∷ cleanup "domain_resolver.strategy" none
    ∷ cleanup "domain_resolver.disable_cache" (some CleanupKind.boolean)
    ∷ cleanup "domain_resolver.rewrite_ttl" (some CleanupKind.number)
    ∷ cleanup "domain_resolver.client_subnet" none
    ∷ []

abbrev pub dialer_fields : List CleanupField
dialer_fields =
    (cleanup "detour" none
      ∷ cleanup "bind_interface" none
      ∷ cleanup "inet4_bind_address" none
      ∷ cleanup "inet6_bind_address" none
      ∷ cleanup "bind_address_no_port" (some CleanupKind.boolean)
      ∷ cleanup "protect_path" none
      ∷ cleanup "routing_mark" (some CleanupKind.routing_mark)
      ∷ cleanup "reuse_addr" (some CleanupKind.boolean)
      ∷ cleanup "netns" none
      ∷ cleanup "connect_timeout" none
      ∷ cleanup "tcp_fast_open" (some CleanupKind.boolean)
      ∷ cleanup "tcp_multi_path" (some CleanupKind.boolean)
      ∷ cleanup "disable_tcp_keep_alive" (some CleanupKind.boolean)
      ∷ cleanup "tcp_keep_alive" none
      ∷ cleanup "tcp_keep_alive_interval" none
      ∷ cleanup "udp_fragment" (some CleanupKind.boolean)
      ∷ [])
    ++ domain_resolver_fields
    ++ (cleanup "network_strategy" none
        ∷ cleanup "network_type" (some CleanupKind.list)
        ∷ cleanup "fallback_network_type" (some CleanupKind.list)
        ∷ cleanup "fallback_delay" none
        ∷ cleanup "domain_strategy" none
        ∷ [])

abbrev pub remote_fields : List CleanupField
remote_fields =
    (cleanup "server" none ∷ cleanup "server_port" (some CleanupKind.number) ∷ []) ++ dialer_fields

abbrev pub tls_fields : List CleanupField
tls_fields =
    cleanup "tls.enabled" (some CleanupKind.boolean)
    ∷ cleanup "tls.disable_sni" (some CleanupKind.boolean)
    ∷ cleanup "tls.server_name" none
    ∷ cleanup "tls.insecure" (some CleanupKind.boolean)
    ∷ cleanup "tls.alpn" (some CleanupKind.list)
    ∷ cleanup "tls.min_version" none
    ∷ cleanup "tls.max_version" none
    ∷ cleanup "tls.cipher_suites" (some CleanupKind.list)
    ∷ cleanup "tls.curve_preferences" (some CleanupKind.list)
    ∷ cleanup "tls.certificate" (some CleanupKind.list)
    ∷ cleanup "tls.certificate_path" none
    ∷ cleanup "tls.certificate_public_key_sha256" (some CleanupKind.list)
    ∷ cleanup "tls.client_certificate" (some CleanupKind.list)
    ∷ cleanup "tls.client_certificate_path" none
    ∷ cleanup "tls.client_key" (some CleanupKind.list)
    ∷ cleanup "tls.client_key_path" none
    ∷ cleanup "tls.fragment" (some CleanupKind.boolean)
    ∷ cleanup "tls.fragment_fallback_delay" none
    ∷ cleanup "tls.record_fragment" (some CleanupKind.boolean)
    ∷ cleanup "tls.kernel_tx" (some CleanupKind.boolean)
    ∷ cleanup "tls.kernel_rx" (some CleanupKind.boolean)
    ∷ cleanup "tls.ech.enabled" (some CleanupKind.boolean)
    ∷ cleanup "tls.ech.config" (some CleanupKind.list)
    ∷ cleanup "tls.ech.config_path" none
    ∷ cleanup "tls.ech.query_server_name" none
    ∷ cleanup "tls.ech.pq_signature_schemes_enabled" (some CleanupKind.boolean)
    ∷ cleanup "tls.ech.dynamic_record_sizing_disabled" (some CleanupKind.boolean)
    ∷ cleanup "tls.utls.enabled" (some CleanupKind.boolean)
    ∷ cleanup "tls.utls.fingerprint" none
    ∷ cleanup "tls.reality.enabled" (some CleanupKind.boolean)
    ∷ cleanup "tls.reality.public_key" none
    ∷ cleanup "tls.reality.short_id" none
    ∷ []

abbrev pub legacy_fields : List CleanupField
legacy_fields =
    cleanup "address" none
    ∷ cleanup "address_resolver" none
    ∷ cleanup "address_strategy" none
    ∷ cleanup "address_fallback_delay" none
    ∷ cleanup "strategy" none
    ∷ cleanup "detour" none
    ∷ cleanup "client_subnet" none
    ∷ []

abbrev pub local_fields : List CleanupField
local_fields = dialer_fields ++ (cleanup "prefer_go" (some CleanupKind.boolean) ∷ [])

abbrev pub https_fields : List CleanupField
https_fields =
    remote_fields
    ++ tls_fields
    ++ (cleanup "path" none
        ∷ cleanup "method" none
        ∷ cleanup "headers" (some CleanupKind.json_object)
        ∷ [])

abbrev pub dns_server_cleanup_fields : CleanupRegistry
dns_server_cleanup_fields =
    ("legacy", legacy_fields)
    ∷ ("local", local_fields)
    ∷ (
      "hosts",
      cleanup "path" (some CleanupKind.list)
          ∷ cleanup "predefined" (some CleanupKind.json_object)
          ∷ [],
    )
    ∷ ("udp", remote_fields)
    ∷ ("tcp", remote_fields)
    ∷ ("tls", remote_fields ++ tls_fields)
    ∷ ("quic", remote_fields ++ tls_fields)
    ∷ ("https", https_fields)
    ∷ ("h3", https_fields)
    ∷ ("dhcp", local_fields ++ (cleanup "interface" none ∷ []))
    ∷ ("fakeip", cleanup "inet4_range" none ∷ cleanup "inet6_range" none ∷ [])
    ∷ []

abbrev pub default_rule_fields : List CleanupField
default_rule_fields =
    cleanup "inbound" (some CleanupKind.list)
    ∷ cleanup "ip_version" (some CleanupKind.number)
    ∷ cleanup "query_type" (some CleanupKind.query_type)
    ∷ cleanup "network" (some CleanupKind.list)
    ∷ cleanup "auth_user" (some CleanupKind.list)
    ∷ cleanup "protocol" (some CleanupKind.list)
    ∷ cleanup "domain" (some CleanupKind.list)
    ∷ cleanup "domain_suffix" (some CleanupKind.list)
    ∷ cleanup "domain_keyword" (some CleanupKind.list)
    ∷ cleanup "domain_regex" (some CleanupKind.list)
    ∷ cleanup "geosite" (some CleanupKind.list)
    ∷ cleanup "source_geoip" (some CleanupKind.list)
    ∷ cleanup "geoip" (some CleanupKind.list)
    ∷ cleanup "ip_cidr" (some CleanupKind.list)
    ∷ cleanup "ip_is_private" (some CleanupKind.boolean)
    ∷ cleanup "ip_accept_any" (some CleanupKind.boolean)
    ∷ cleanup "source_ip_cidr" (some CleanupKind.list)
    ∷ cleanup "source_ip_is_private" (some CleanupKind.boolean)
    ∷ cleanup "source_port" (some CleanupKind.number_list)
    ∷ cleanup "source_port_range" (some CleanupKind.list)
    ∷ cleanup "port" (some CleanupKind.number_list)
    ∷ cleanup "port_range" (some CleanupKind.list)
    ∷ cleanup "process_name" (some CleanupKind.list)
    ∷ cleanup "process_path" (some CleanupKind.list)
    ∷ cleanup "process_path_regex" (some CleanupKind.list)
    ∷ cleanup "package_name" (some CleanupKind.list)
    ∷ cleanup "user" (some CleanupKind.list)
    ∷ cleanup "user_id" (some CleanupKind.number_list)
    ∷ cleanup "outbound" (some CleanupKind.list)
    ∷ cleanup "clash_mode" none
    ∷ cleanup "network_type" (some CleanupKind.list)
    ∷ cleanup "network_is_expensive" (some CleanupKind.boolean)
    ∷ cleanup "network_is_constrained" (some CleanupKind.boolean)
    ∷ cleanup "wifi_ssid" (some CleanupKind.list)
    ∷ cleanup "wifi_bssid" (some CleanupKind.list)
    ∷ cleanup "interface_address" (some CleanupKind.json_object)
    ∷ cleanup "network_interface_address" (some CleanupKind.json_object)
    ∷ cleanup "default_interface_address" (some CleanupKind.list)
    ∷ cleanup "rule_set" (some CleanupKind.list)
    ∷ cleanup "rule_set_ip_cidr_match_source" (some CleanupKind.boolean)
    ∷ cleanup "rule_set_ip_cidr_accept_empty" (some CleanupKind.boolean)
    ∷ cleanup "rule_set_ipcidr_match_source" (some CleanupKind.boolean)
    ∷ cleanup "invert" (some CleanupKind.boolean)
    ∷ []

abbrev pub dns_rule_cleanup_fields : CleanupRegistry
dns_rule_cleanup_fields =
    ("default", default_rule_fields)
    ∷ (
      "logical",
      cleanup "mode" none
          ∷ cleanup "rules" (some CleanupKind.json_array)
          ∷ cleanup "invert" (some CleanupKind.boolean)
          ∷ [],
    )
    ∷ []

abbrev pub dns_action_cleanup_fields : CleanupRegistry
dns_action_cleanup_fields =
    (
      "route",
      cleanup "server" none
          ∷ cleanup "strategy" none
          ∷ cleanup "disable_cache" (some CleanupKind.boolean)
          ∷ cleanup "rewrite_ttl" (some CleanupKind.number)
          ∷ cleanup "client_subnet" none
          ∷ [],
    )
    ∷ (
      "route-options",
      cleanup "strategy" none
          ∷ cleanup "disable_cache" (some CleanupKind.boolean)
          ∷ cleanup "rewrite_ttl" (some CleanupKind.number)
          ∷ cleanup "client_subnet" none
          ∷ [],
    )
    ∷ ("reject", cleanup "method" none ∷ cleanup "no_drop" (some CleanupKind.boolean) ∷ [])
    ∷ (
      "predefined",
      cleanup "rcode" (some CleanupKind.rcode)
          ∷ cleanup "answer" (some CleanupKind.list)
          ∷ cleanup "ns" (some CleanupKind.list)
          ∷ cleanup "extra" (some CleanupKind.list)
          ∷ [],
    )
    ∷ []
