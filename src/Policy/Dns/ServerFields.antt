-- ===== src/Policy/Dns/ServerFields.antt =====
-- The field tables of ui/src/features/policy/dns-form-server-fields.ts.
use boxui.Base.{String, true, none, some, List, [], ◌∷◌, ◌++◌}
use boxui.Json.{boolean}
use boxui.Form.{
  FieldWhen, FieldTable, field, with_options, with_ref, with_when, when_is, when_falsy, when_set,
}
use boxui.Policy.Kinds.{PolicyFieldKind as Kind, PolicyFieldRef as Ref, PolicyFieldSpec}

abbrev pub domain_strategies : List String
domain_strategies = "prefer_ipv4" ∷ "prefer_ipv6" ∷ "ipv4_only" ∷ "ipv6_only" ∷ []

abbrev pub network_strategies : List String
network_strategies = "default" ∷ "fallback" ∷ "hybrid" ∷ []

abbrev pub keep_alive_on : FieldWhen
keep_alive_on = when_falsy "disable_tcp_keep_alive"

abbrev pub resolver_on : FieldWhen
resolver_on = when_set "domain_resolver.server"

abbrev pub tls_on : FieldWhen
tls_on = when_is "tls.enabled" (boolean true ∷ [])

abbrev pub domain_resolver_fields : List PolicyFieldSpec
domain_resolver_fields =
    with_ref Ref.dns_server
      (field "domain_resolver.server" "domainResolverServer" (some Kind.ref) (some "resolver"))
    ∷ with_when (resolver_on ∷ []) (
        with_options domain_strategies (
          field "domain_resolver.strategy" "domainResolverStrategy" (some Kind.select)
            (some "resolver")))
    ∷ with_when (resolver_on ∷ []) (
        field "domain_resolver.disable_cache" "domainResolverDisableCache" (some Kind.boolean)
          (some "resolver"))
    ∷ with_when (resolver_on ∷ []) (
        field "domain_resolver.rewrite_ttl" "domainResolverRewriteTTL" (some Kind.number)
          (some "resolver"))
    ∷ with_when (resolver_on ∷ [])
        (field "domain_resolver.client_subnet" "domainResolverClientSubnet" none (some "resolver"))
    ∷ []

abbrev pub dialer_fields : List PolicyFieldSpec
dialer_fields =
    (with_ref Ref.outbound (field "detour" "detour" (some Kind.ref) (some "bind"))
      ∷ field "bind_interface" "bindInterface" (some Kind.network_interface) (some "bind")
      ∷ field "inet4_bind_address" "inet4BindAddress" none (some "bind")
      ∷ field "inet6_bind_address" "inet6BindAddress" none (some "bind")
      ∷ field "bind_address_no_port" "bindAddressNoPort" (some Kind.boolean) (some "bind")
      ∷ field "protect_path" "protectPath" none (some "bind")
      ∷ field "routing_mark" "routingMark" none (some "bind")
      ∷ field "reuse_addr" "reuseAddress" (some Kind.boolean) (some "bind")
      ∷ field "netns" "networkNamespace" none (some "bind")
      ∷ field "connect_timeout" "connectTimeout" none (some "tcp")
      ∷ field "tcp_fast_open" "tcpFastOpen" (some Kind.boolean) (some "tcp")
      ∷ field "tcp_multi_path" "tcpMultiPath" (some Kind.boolean) (some "tcp")
      ∷ field "disable_tcp_keep_alive" "disableTCPKeepAlive" (some Kind.boolean) (some "tcp")
      ∷ with_when (keep_alive_on ∷ []) (field "tcp_keep_alive" "tcpKeepAlive" none (some "tcp"))
      ∷ with_when (keep_alive_on ∷ [])
          (field "tcp_keep_alive_interval" "tcpKeepAliveInterval" none (some "tcp"))
      ∷ field "udp_fragment" "udpFragment" (some Kind.boolean) (some "udp")
      ∷ [])
    ++ domain_resolver_fields
    ++ (with_options network_strategies
          (field "network_strategy" "networkStrategy" (some Kind.select) (some "strategy"))
        ∷ field "network_type" "networkType" (some Kind.list) (some "strategy")
        ∷ field "fallback_network_type" "fallbackNetworkType" (some Kind.list) (some "strategy")
        ∷ field "fallback_delay" "fallbackDelay" none (some "strategy")
        ∷ [])

abbrev pub remote_fields : List PolicyFieldSpec
remote_fields =
    (field "server" "server" none (some "remote")
      ∷ field "server_port" "serverPort" (some Kind.number) (some "remote")
      ∷ [])
    ++ dialer_fields

abbrev pub tls_fields : List PolicyFieldSpec
tls_fields =
    field "tls.enabled" "tlsEnabled" (some Kind.boolean) (some "tls")
    ∷ with_when (tls_on ∷ [])
        (field "tls.disable_sni" "tlsDisableSNI" (some Kind.boolean) (some "tls"))
    ∷ with_when (tls_on ∷ []) (field "tls.server_name" "tlsServerName" none (some "tls"))
    ∷ with_when (tls_on ∷ []) (field "tls.insecure" "tlsInsecure" (some Kind.boolean) (some "tls"))
    ∷ with_when (tls_on ∷ []) (field "tls.alpn" "tlsALPN" (some Kind.list) (some "tls"))
    ∷ with_when (tls_on ∷ [])
        (field "tls.certificate" "tlsCertificate" (some Kind.list) (some "tls"))
    ∷ with_when (tls_on ∷ []) (field "tls.certificate_path" "tlsCertificatePath" none (some "tls"))
    ∷ []

abbrev pub legacy_fields : List PolicyFieldSpec
legacy_fields =
    field "address" "address" none (some "basic")
    ∷ with_ref Ref.dns_server
        (field "address_resolver" "addressResolver" (some Kind.ref) (some "basic"))
    ∷ with_options domain_strategies
        (field "address_strategy" "addressStrategy" (some Kind.select) (some "basic"))
    ∷ field "address_fallback_delay" "addressFallbackDelay" none (some "basic")
    ∷ with_options domain_strategies (field "strategy" "strategy" (some Kind.select) (some "basic"))
    ∷ with_ref Ref.outbound (field "detour" "detour" (some Kind.ref) (some "basic"))
    ∷ field "client_subnet" "clientSubnet" none (some "basic")
    ∷ []

abbrev pub http_fields : List PolicyFieldSpec
http_fields =
    field "path" "httpPath" none (some "http")
    ∷ field "method" "method" none (some "http")
    ∷ field "headers" "headers" (some Kind.json_object) (some "http")
    ∷ []

abbrev pub dns_server_fields : FieldTable Kind Ref
dns_server_fields =
    ("legacy", legacy_fields)
    ∷ (
      "local",
      dialer_fields ++ (field "prefer_go" "preferGo" (some Kind.boolean) (some "local") ∷ []),
    )
    ∷ (
      "hosts",
      field "path" "path" (some Kind.list) (some "hosts")
          ∷ field "predefined" "predefined" (some Kind.json_object) (some "hosts")
          ∷ [],
    )
    ∷ ("udp", remote_fields)
    ∷ ("tcp", remote_fields)
    ∷ ("tls", remote_fields ++ tls_fields)
    ∷ ("quic", remote_fields ++ tls_fields)
    ∷ ("https", remote_fields ++ tls_fields ++ http_fields)
    ∷ ("h3", remote_fields ++ tls_fields ++ http_fields)
    ∷ (
      "dhcp",
      dialer_fields
          ++ (field "prefer_go" "preferGo" (some Kind.boolean) (some "local")
              ∷ field "interface" "interface" (some Kind.network_interface) (some "local")
              ∷ []),
    )
    ∷ (
      "fakeip",
      field "inet4_range" "fakeIPIPv4Range" none (some "fakeip")
          ∷ field "inet6_range" "fakeIPIPv6Range" none (some "fakeip")
          ∷ [],
    )
    ∷ []
