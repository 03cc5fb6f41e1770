-- ===== src/Proxy/Outbound/Fields.antt =====
-- The types and the dialer table of ui/src/features/proxy/outbound-form-model.ts.
use boxui.Base.{String, true, none, some, List, [], ◌∷◌, ◌++◌}
use boxui.Json.{boolean}
use boxui.Form.{FieldWhen, field, with_options, with_ref, with_when, when_is, when_falsy}
use boxui.Proxy.Kinds.{FieldKind as Kind, FieldRef as Ref, ProxyFieldSpec}

abbrev pub outbound_types : List String
outbound_types =
    ("direct" ∷ "block" ∷ "selector" ∷ "urltest" ∷ "socks" ∷ "http" ∷ "shadowsocks" ∷ "vmess"
      ∷ "vless" ∷ "trojan" ∷ "naive" ∷ "hysteria" ∷ "hysteria2" ∷ "tuic" ∷ "ssh" ∷ "tor"
      ∷ "shadowtls" ∷ "anytls" ∷ [])

abbrev pub server_types : List String
server_types =
    ("socks" ∷ "http" ∷ "shadowsocks" ∷ "vmess" ∷ "vless" ∷ "trojan" ∷ "naive" ∷ "hysteria"
      ∷ "hysteria2" ∷ "tuic" ∷ "ssh" ∷ "shadowtls" ∷ "anytls" ∷ [])

abbrev pub dialer_types : List String
dialer_types = ("direct" ∷ []) ++ server_types ++ ("tor" ∷ [])

abbrev pub outbound_tls_types : List String
outbound_tls_types =
    ("http" ∷ "vmess" ∷ "vless" ∷ "trojan" ∷ "naive" ∷ "hysteria" ∷ "hysteria2" ∷ "tuic"
      ∷ "shadowtls" ∷ "anytls" ∷ [])

abbrev pub outbound_transport_types : List String
outbound_transport_types = ("vmess" ∷ "vless" ∷ "trojan" ∷ [])

abbrev pub outbound_multiplex_types : List String
outbound_multiplex_types = ("shadowsocks" ∷ "vmess" ∷ "vless" ∷ "trojan" ∷ [])

abbrev pub group_types : List String
group_types = ("selector" ∷ "urltest" ∷ [])

abbrev pub keep_alive_on : FieldWhen
keep_alive_on = when_falsy "disable_tcp_keep_alive"

abbrev pub udp_over_tcp_on : FieldWhen
udp_over_tcp_on = when_is "udp_over_tcp.enabled" (boolean true ∷ [])

abbrev pub ss_methods : List String
ss_methods =
    ("2022-blake3-aes-128-gcm" ∷ "2022-blake3-aes-256-gcm" ∷ "2022-blake3-chacha20-poly1305"
      ∷ "aes-128-gcm" ∷ "aes-192-gcm" ∷ "aes-256-gcm" ∷ "chacha20-ietf-poly1305"
      ∷ "xchacha20-ietf-poly1305" ∷ "none" ∷ [])

abbrev pub dialer_fields : List ProxyFieldSpec
dialer_fields =
    with_ref Ref.outbound (field "detour" "detour" (some Kind.ref) (some "bind"))
    ∷ field "bind_interface" "bindInterface" (some Kind.network_interface) (some "bind")
    ∷ field "inet4_bind_address" "inet4BindAddress" none (some "bind")
    ∷ field "inet6_bind_address" "inet6BindAddress" none (some "bind")
    ∷ field "bind_address_no_port" "bindAddressNoPort" (some Kind.boolean) (some "bind")
    ∷ field "protect_path" "protectPath" none (some "bind")
    ∷ field "routing_mark" "routingMark" none (some "bind")
    ∷ field "reuse_addr" "reuseAddress" (some Kind.boolean) (some "bind")
    ∷ field "netns" "networkNamespace" none (some "bind")
    ∷ field "connect_timeout" "connectTimeout" none (some "bind")
    ∷ field "tcp_fast_open" "tcpFastOpen" (some Kind.boolean) (some "tcp")
    ∷ field "tcp_multi_path" "tcpMultiPath" (some Kind.boolean) (some "tcp")
    ∷ field "disable_tcp_keep_alive" "disableTCPKeepAlive" (some Kind.boolean) (some "tcp")
    ∷ with_when (keep_alive_on ∷ []) (field "tcp_keep_alive" "tcpKeepAlive" none (some "tcp"))
    ∷ with_when (keep_alive_on ∷ [])
        (field "tcp_keep_alive_interval" "tcpKeepAliveInterval" none (some "tcp"))
    ∷ with_options ("true" ∷ "false" ∷ [])
        (field "udp_fragment" "udpFragment" (some Kind.select) (some "udp"))
    ∷ with_ref Ref.dns_server
        (field "domain_resolver.server" "domainResolverServer" (some Kind.ref) (some "dns"))
    ∷ with_options ("prefer_ipv4" ∷ "prefer_ipv6" ∷ "ipv4_only" ∷ "ipv6_only" ∷ [])
        (field "domain_resolver.strategy" "domainResolverStrategy" (some Kind.select) (some "dns"))
    ∷ field "domain_resolver.disable_cache" "domainResolverDisableCache" (some Kind.boolean)
        (some "dns")
    ∷ field "domain_resolver.rewrite_ttl" "domainResolverRewriteTTL" (some Kind.number) (some "dns")
    ∷ field "domain_resolver.client_subnet" "domainResolverClientSubnet" none (some "dns")
    ∷ with_options ("default" ∷ "fallback" ∷ "hybrid" ∷ [])
        (field "network_strategy" "networkStrategy" (some Kind.select) (some "strategy"))
    ∷ field "network_type" "networkType" (some Kind.list) (some "strategy")
    ∷ field "fallback_network_type" "fallbackNetworkType" (some Kind.list) (some "strategy")
    ∷ field "fallback_delay" "fallbackDelay" none (some "strategy")
    ∷ []
