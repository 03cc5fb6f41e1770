-- ===== src/Policy/Route/Fields.antt =====
-- The field tables of ui/src/features/policy/route-form-model.ts.
use boxui.Base.{String, true, none, some, List, [], ◌∷◌, ◌++◌, ◌==◌, not, keep}
use boxui.Json.{boolean}
use boxui.Form.{
  FieldWhen, field, with_options, with_ref, with_when, is_required, when_is, when_falsy, when_set,
  FieldTable,
}
use boxui.Policy.Kinds.{PolicyFieldKind as Kind, PolicyFieldRef as Ref, PolicyFieldSpec}

abbrev pub domain_strategies : List String
domain_strategies = "prefer_ipv4" ∷ "prefer_ipv6" ∷ "ipv4_only" ∷ "ipv6_only" ∷ []

abbrev pub network_strategies : List String
network_strategies = "default" ∷ "fallback" ∷ "hybrid" ∷ []

abbrev pub keep_alive_on : FieldWhen
keep_alive_on = when_falsy "disable_tcp_keep_alive"

abbrev pub tls_fragment_on : FieldWhen
tls_fragment_on = when_is "tls_fragment" (boolean true ∷ [])

abbrev pub resolver_on : FieldWhen
resolver_on = when_set "default_domain_resolver.server"

abbrev pub action_resolver_on : FieldWhen
action_resolver_on = when_set "domain_resolver.server"

abbrev pub route_global_fields : List PolicyFieldSpec
route_global_fields =
    with_ref Ref.outbound (field "final" "final" (some Kind.ref) (some "basic"))
    ∷ field "find_process" "findProcess" (some Kind.boolean) (some "basic")
    ∷ field "auto_detect_interface" "autoDetectInterface" (some Kind.boolean) (some "interface")
    ∷ field "override_android_vpn" "overrideAndroidVPN" (some Kind.boolean) (some "interface")
    ∷ field "default_interface" "defaultInterface" (some Kind.network_interface) (some "interface")
    ∷ field "default_mark" "defaultMark" none (some "interface")
    ∷ with_ref Ref.dns_server (
        field "default_domain_resolver.server" "defaultDomainResolverServer" (some Kind.ref)
          (some "dns"))
    ∷ with_when (resolver_on ∷ []) (
        with_options domain_strategies (
          field "default_domain_resolver.strategy" "defaultDomainResolverStrategy"
            (some Kind.select) (some "dns")))
    ∷ with_when (resolver_on ∷ []) (
        field "default_domain_resolver.disable_cache" "defaultDomainResolverDisableCache"
          (some Kind.boolean) (some "dns"))
    ∷ with_when (resolver_on ∷ []) (
        field "default_domain_resolver.rewrite_ttl" "defaultDomainResolverRewriteTTL"
          (some Kind.number) (some "dns"))
    ∷ with_when (resolver_on ∷ []) (
        field "default_domain_resolver.client_subnet" "defaultDomainResolverClientSubnet" none
          (some "dns"))
    ∷ with_options network_strategies (
        field "default_network_strategy" "defaultNetworkStrategy" (some Kind.select)
          (some "strategy"))
    ∷ field "default_network_type" "defaultNetworkType" (some Kind.list) (some "strategy")
    ∷ field "default_fallback_network_type" "defaultFallbackNetworkType" (some Kind.list)
        (some "strategy")
    ∷ field "default_fallback_delay" "defaultFallbackDelay" none (some "strategy")
    ∷ []

abbrev pub route_match_fields : List PolicyFieldSpec
route_match_fields =
    with_options ("default" ∷ "logical" ∷ [])
      (field "type" "type" (some Kind.select) (some "basic"))
    ∷ with_ref Ref.inbound (field "inbound" "inbound" (some Kind.ref_multi) (some "basic"))
    ∷ with_options ("4" ∷ "6" ∷ [])
        (field "ip_version" "ipVersion" (some Kind.select) (some "basic"))
    ∷ field "network" "network" (some Kind.network_multi) (some "basic")
    ∷ field "auth_user" "authUser" (some Kind.list) (some "basic")
    ∷ field "protocol" "protocol" (some Kind.list) (some "basic")
    ∷ field "client" "client" (some Kind.list) (some "basic")
    ∷ field "domain" "domain" (some Kind.list) (some "domain")
    ∷ field "domain_suffix" "domainSuffix" (some Kind.list) (some "domain")
    ∷ field "domain_keyword" "domainKeyword" (some Kind.list) (some "domain")
    ∷ field "domain_regex" "domainRegex" (some Kind.list) (some "domain")
    ∷ field "source_ip_cidr" "sourceIPCIDR" (some Kind.list) (some "domain")
    ∷ field "source_ip_is_private" "sourceIPIsPrivate" (some Kind.boolean) (some "domain")
    ∷ field "ip_cidr" "ipCIDR" (some Kind.list) (some "domain")
    ∷ field "ip_is_private" "ipIsPrivate" (some Kind.boolean) (some "domain")
    ∷ field "source_port" "sourcePort" (some Kind.number_list) (some "process")
    ∷ field "source_port_range" "sourcePortRange" (some Kind.list) (some "process")
    ∷ field "port" "port" (some Kind.number_list) (some "process")
    ∷ field "port_range" "portRange" (some Kind.list) (some "process")
    ∷ field "process_name" "processName" (some Kind.list) (some "process")
    ∷ field "process_path" "processPath" (some Kind.list) (some "process")
    ∷ field "process_path_regex" "processPathRegex" (some Kind.list) (some "process")
    ∷ field "package_name" "packageName" (some Kind.list) (some "process")
    ∷ field "user" "user" (some Kind.list) (some "process")
    ∷ field "user_id" "userID" (some Kind.number_list) (some "process")
    ∷ with_ref Ref.rule_set (field "rule_set" "ruleSet" (some Kind.ref_multi) (some "environment"))
    ∷ field "rule_set_ip_cidr_match_source" "ruleSetIPCIDRMatchSource" (some Kind.boolean)
        (some "environment")
    ∷ field "clash_mode" "clashMode" none (some "environment")
    ∷ field "network_type" "networkType" (some Kind.list) (some "environment")
    ∷ field "network_is_expensive" "networkIsExpensive" (some Kind.boolean) (some "environment")
    ∷ field "network_is_constrained" "networkIsConstrained" (some Kind.boolean) (some "environment")
    ∷ field "wifi_ssid" "wifiSSID" (some Kind.list) (some "environment")
    ∷ field "wifi_bssid" "wifiBSSID" (some Kind.list) (some "environment")
    ∷ field "invert" "invert" (some Kind.boolean) (some "basic")
    ∷ []

abbrev pub route_option_fields : List PolicyFieldSpec
route_option_fields =
    field "override_address" "overrideAddress" none (some "action")
    ∷ field "override_port" "overridePort" (some Kind.number) (some "action")
    ∷ with_options network_strategies
        (field "network_strategy" "networkStrategy" (some Kind.select) (some "action"))
    ∷ field "fallback_delay" "fallbackDelay" (some Kind.number) (some "action")
    ∷ field "udp_disable_domain_unmapping" "udpDisableDomainUnmapping" (some Kind.boolean)
        (some "action")
    ∷ field "udp_connect" "udpConnect" (some Kind.boolean) (some "action")
    ∷ field "udp_timeout" "udpTimeout" none (some "action")
    ∷ field "tls_fragment" "tlsFragment" (some Kind.boolean) (some "action")
    ∷ with_when (tls_fragment_on ∷ [])
        (field "tls_fragment_fallback_delay" "tlsFragmentFallbackDelay" none (some "action"))
    ∷ field "tls_record_fragment" "tlsRecordFragment" (some Kind.boolean) (some "action")
    ∷ []

abbrev pub direct_fields : List PolicyFieldSpec
direct_fields =
    field "bind_interface" "bindInterface" (some Kind.network_interface) (some "action")
    ∷ field "inet4_bind_address" "inet4BindAddress" none (some "action")
    ∷ field "inet6_bind_address" "inet6BindAddress" none (some "action")
    ∷ field "bind_address_no_port" "bindAddressNoPort" (some Kind.boolean) (some "action")
    ∷ field "protect_path" "protectPath" none (some "action")
    ∷ field "routing_mark" "routingMark" none (some "action")
    ∷ field "reuse_addr" "reuseAddress" (some Kind.boolean) (some "action")
    ∷ field "netns" "networkNamespace" none (some "action")
    ∷ field "connect_timeout" "connectTimeout" none (some "action")
    ∷ field "tcp_fast_open" "tcpFastOpen" (some Kind.boolean) (some "action")
    ∷ field "tcp_multi_path" "tcpMultiPath" (some Kind.boolean) (some "action")
    ∷ field "disable_tcp_keep_alive" "disableTCPKeepAlive" (some Kind.boolean) (some "action")
    ∷ with_when (keep_alive_on ∷ []) (field "tcp_keep_alive" "tcpKeepAlive" none (some "action"))
    ∷ with_when (keep_alive_on ∷ [])
        (field "tcp_keep_alive_interval" "tcpKeepAliveInterval" none (some "action"))
    ∷ field "udp_fragment" "udpFragment" (some Kind.boolean) (some "action")
    ∷ with_ref Ref.dns_server
        (field "domain_resolver.server" "domainResolverServer" (some Kind.ref) (some "action"))
    ∷ with_when (action_resolver_on ∷ []) (
        with_options domain_strategies (
          field "domain_resolver.strategy" "domainResolverStrategy" (some Kind.select)
            (some "action")))
    ∷ with_when (action_resolver_on ∷ []) (
        field "domain_resolver.disable_cache" "domainResolverDisableCache" (some Kind.boolean)
          (some "action"))
    ∷ with_when (action_resolver_on ∷ []) (
        field "domain_resolver.rewrite_ttl" "domainResolverRewriteTTL" (some Kind.number)
          (some "action"))
    ∷ with_when (action_resolver_on ∷ [])
        (field "domain_resolver.client_subnet" "domainResolverClientSubnet" none (some "action"))
    ∷ with_options network_strategies
        (field "network_strategy" "networkStrategy" (some Kind.select) (some "action"))
    ∷ field "network_type" "networkType" (some Kind.list) (some "action")
    ∷ field "fallback_network_type" "fallbackNetworkType" (some Kind.list) (some "action")
    ∷ field "fallback_delay" "fallbackDelay" none (some "action")
    ∷ []

abbrev pub route_fields : List PolicyFieldSpec
route_fields =
    (is_required
        (with_ref Ref.outbound (field "outbound" "outbound" (some Kind.ref) (some "action")))
      ∷ [])
    ++ route_option_fields

abbrev pub route_actions : List String
route_actions =
    "route" ∷ "route-options" ∷ "direct" ∷ "bypass" ∷ "reject" ∷ "hijack-dns" ∷ "sniff" ∷ "resolve"
    ∷ []

abbrev pub route_action_fields : FieldTable Kind Ref
route_action_fields =
    ("route", route_fields)
    ∷ ("route-options", route_option_fields)
    ∷ ("direct", direct_fields)
    ∷ ("bypass", route_fields)
    ∷ (
      "reject",
      with_options ("default" ∷ "drop" ∷ "reply" ∷ [])
            (field "method" "rejectMethod" (some Kind.select) (some "action"))
          ∷ field "no_drop" "rejectNoDrop" (some Kind.boolean) (some "action")
          ∷ [],
    )
    ∷ ("hijack-dns", [])
    ∷ (
      "sniff",
      field "sniffer" "sniffer" (some Kind.list) (some "action")
          ∷ field "timeout" "sniffTimeout" none (some "action")
          ∷ [],
    )
    ∷ (
      "resolve",
      with_ref Ref.dns_server (field "server" "resolveServer" (some Kind.ref) (some "action"))
          ∷ with_options domain_strategies
              (field "strategy" "resolveStrategy" (some Kind.select) (some "action"))
          ∷ field "disable_cache" "resolveDisableCache" (some Kind.boolean) (some "action")
          ∷ field "rewrite_ttl" "resolveRewriteTTL" (some Kind.number) (some "action")
          ∷ field "client_subnet" "resolveClientSubnet" none (some "action")
          ∷ [],
    )
    ∷ []

abbrev pub logical_rule_fields : List PolicyFieldSpec
logical_rule_fields =
    with_options ("and" ∷ "or" ∷ []) (field "mode" "logicalMode" (some Kind.select) (some "basic"))
    ∷ field "rules" "logicalRules" (some Kind.json_array) (some "basic")
    ∷ field "invert" "invert" (some Kind.boolean) (some "basic")
    ∷ []

abbrev pub default_rule_fields : List PolicyFieldSpec
default_rule_fields = keep (λ f. not (f.path == "type")) route_match_fields

abbrev pub rule_type_fields : FieldTable Kind Ref
rule_type_fields = ("default", default_rule_fields) ∷ ("logical", logical_rule_fields) ∷ []

abbrev pub rule_set_fields : FieldTable Kind Ref
rule_set_fields =
    ("inline", field "rules" "rules" (some Kind.json_array) none ∷ [])
    ∷ ("local", field "format" "format" none none ∷ field "path" "path" none none ∷ [])
    ∷ (
      "remote",
      field "format" "format" none none
          ∷ field "url" "url" none none
          ∷ with_ref Ref.outbound (field "download_detour" "downloadDetour" (some Kind.ref) none)
          ∷ field "update_interval" "updateInterval" none none
          ∷ [],
    )
    ∷ []
