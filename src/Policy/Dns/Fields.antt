-- ===== src/Policy/Dns/Fields.antt =====
-- The field tables of ui/src/features/policy/dns-form-model.ts.
use boxui.Base.{String, true, none, some, List, [], ◌∷◌, ◌++◌}
use boxui.Json.{boolean}
use boxui.Form.{FieldTable, field, with_options, with_ref, with_when, when_is}
use boxui.Policy.Kinds.{PolicyFieldKind as Kind, PolicyFieldRef as Ref, PolicyFieldSpec}

abbrev pub domain_strategies : List String
domain_strategies = "prefer_ipv4" ∷ "prefer_ipv6" ∷ "ipv4_only" ∷ "ipv6_only" ∷ []

abbrev pub dns_global_fields : List PolicyFieldSpec
dns_global_fields =
    with_ref Ref.dns_server (field "final" "final" (some Kind.ref) (some "basic"))
    ∷ with_options domain_strategies (field "strategy" "strategy" (some Kind.select) (some "basic"))
    ∷ field "client_subnet" "clientSubnet" none (some "basic")
    ∷ field "disable_cache" "disableCache" (some Kind.boolean) (some "cache")
    ∷ field "disable_expire" "disableExpire" (some Kind.boolean) (some "cache")
    ∷ field "independent_cache" "independentCache" (some Kind.boolean) (some "cache")
    ∷ field "cache_capacity" "cacheCapacity" (some Kind.number) (some "cache")
    ∷ field "reverse_mapping" "reverseMapping" (some Kind.boolean) (some "cache")
    ∷ []

abbrev pub legacy_fake_ip_fields : List PolicyFieldSpec
legacy_fake_ip_fields =
    field "fakeip.enabled" "fakeIPEnabled" (some Kind.boolean) (some "fakeip")
    ∷ with_when ((when_is "fakeip.enabled" (boolean true ∷ [])) ∷ [])
        (field "fakeip.inet4_range" "fakeIPIPv4Range" none (some "fakeip"))
    ∷ with_when ((when_is "fakeip.enabled" (boolean true ∷ [])) ∷ [])
        (field "fakeip.inet6_range" "fakeIPIPv6Range" none (some "fakeip"))
    ∷ []

abbrev pub dns_server_types : List String
dns_server_types =
    "legacy" ∷ "local" ∷ "hosts" ∷ "udp" ∷ "tcp" ∷ "tls" ∷ "quic" ∷ "https" ∷ "h3" ∷ "dhcp"
    ∷ "fakeip" ∷ []

abbrev pub dns_rule_match_fields : List PolicyFieldSpec
dns_rule_match_fields =
    with_options ("default" ∷ "logical" ∷ [])
      (field "type" "type" (some Kind.select) (some "basic"))
    ∷ with_ref Ref.inbound (field "inbound" "inbound" (some Kind.ref_multi) (some "basic"))
    ∷ with_options ("4" ∷ "6" ∷ [])
        (field "ip_version" "ipVersion" (some Kind.select) (some "basic"))
    ∷ field "query_type" "queryType" (some Kind.list) (some "basic")
    ∷ field "network" "network" (some Kind.network_multi) (some "basic")
    ∷ field "auth_user" "authUser" (some Kind.list) (some "basic")
    ∷ field "protocol" "protocol" (some Kind.list) (some "basic")
    ∷ field "domain" "domain" (some Kind.list) (some "domain")
    ∷ field "domain_suffix" "domainSuffix" (some Kind.list) (some "domain")
    ∷ field "domain_keyword" "domainKeyword" (some Kind.list) (some "domain")
    ∷ field "domain_regex" "domainRegex" (some Kind.list) (some "domain")
    ∷ field "source_ip_cidr" "sourceIPCIDR" (some Kind.list) (some "domain")
    ∷ field "source_ip_is_private" "sourceIPIsPrivate" (some Kind.boolean) (some "domain")
    ∷ field "ip_cidr" "ipCIDR" (some Kind.list) (some "domain")
    ∷ field "ip_is_private" "ipIsPrivate" (some Kind.boolean) (some "domain")
    ∷ field "source_port" "sourcePort" (some Kind.number_list) (some "process")
    ∷ field "source_port_range" "sourcePortRange" (some Kind.list) (some "process")
    ∷ field "port" "port" (some Kind.number_list) (some "process")
    ∷ field "port_range" "portRange" (some Kind.list) (some "process")
    ∷ field "process_name" "processName" (some Kind.list) (some "process")
    ∷ field "process_path" "processPath" (some Kind.list) (some "process")
    ∷ field "process_path_regex" "processPathRegex" (some Kind.list) (some "process")
    ∷ field "package_name" "packageName" (some Kind.list) (some "process")
    ∷ field "user" "user" (some Kind.list) (some "process")
    ∷ field "user_id" "userID" (some Kind.number_list) (some "process")
    ∷ with_ref Ref.outbound (field "outbound" "outbound" (some Kind.ref_multi) (some "process"))
    ∷ field "clash_mode" "clashMode" none (some "process")
    ∷ with_ref Ref.rule_set (field "rule_set" "ruleSet" (some Kind.ref_multi) (some "process"))
    ∷ field "rule_set_ip_cidr_match_source" "ruleSetIPCIDRMatchSource" (some Kind.boolean)
        (some "process")
    ∷ field "network_type" "networkType" (some Kind.list) (some "process")
    ∷ field "network_is_expensive" "networkIsExpensive" (some Kind.boolean) (some "process")
    ∷ field "network_is_constrained" "networkIsConstrained" (some Kind.boolean) (some "process")
    ∷ field "wifi_ssid" "wifiSSID" (some Kind.list) (some "process")
    ∷ field "wifi_bssid" "wifiBSSID" (some Kind.list) (some "process")
    ∷ field "invert" "invert" (some Kind.boolean) (some "basic")
    ∷ []

abbrev pub route_option_fields : List PolicyFieldSpec
route_option_fields =
    with_options domain_strategies (field "strategy" "strategy" (some Kind.select) (some "action"))
    ∷ field "disable_cache" "disableCache" (some Kind.boolean) (some "action")
    ∷ field "rewrite_ttl" "rewriteTTL" (some Kind.number) (some "action")
    ∷ field "client_subnet" "clientSubnet" none (some "action")
    ∷ []

abbrev pub dns_actions : List String
dns_actions = "route" ∷ "route-options" ∷ "reject" ∷ "predefined" ∷ []

abbrev pub dns_action_fields : FieldTable Kind Ref
dns_action_fields =
    (
      "route",
      (with_ref Ref.dns_server (field "server" "server" (some Kind.ref) (some "action")) ∷ [])
          ++ route_option_fields,
    )
    ∷ ("route-options", route_option_fields)
    ∷ (
      "reject",
      with_options ("default" ∷ "drop" ∷ "reply" ∷ [])
            (field "method" "rejectMethod" (some Kind.select) (some "action"))
          ∷ field "no_drop" "rejectNoDrop" (some Kind.boolean) (some "action")
          ∷ [],
    )
    ∷ (
      "predefined",
      field "rcode" "rcode" none (some "action")
          ∷ field "answer" "answer" (some Kind.list) (some "action")
          ∷ field "ns" "nameServer" (some Kind.list) (some "action")
          ∷ field "extra" "extra" (some Kind.list) (some "action")
          ∷ [],
    )
    ∷ []
