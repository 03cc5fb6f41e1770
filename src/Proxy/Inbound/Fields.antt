-- ===== src/Proxy/Inbound/Fields.antt =====
-- The listen, protocol and tun tables of ui/src/features/proxy/inbound-form-model.ts.
use boxui.Base.{String, true, none, some, List, [], ◌∷◌}
use boxui.Json.{boolean, string}
use boxui.Form.{FieldTable, field, with_options, with_ref, with_when, when_is, when_falsy}
use boxui.Proxy.Kinds.{FieldKind as Kind, FieldRef as Ref, ProxyFieldSpec}

abbrev pub inbound_types : List String
inbound_types =
    ("mixed" ∷ "socks" ∷ "http" ∷ "direct" ∷ "shadowsocks" ∷ "vmess" ∷ "vless" ∷ "trojan" ∷ "naive"
      ∷ "hysteria" ∷ "hysteria2" ∷ "tuic" ∷ "shadowtls" ∷ "anytls" ∷ "redirect" ∷ "tproxy" ∷ "tun"
      ∷ [])

abbrev pub listen_fields : List ProxyFieldSpec
listen_fields =
    field "listen" "listenAddress" (some Kind.listen_address) (some "bind")
    ∷ field "listen_port" "listenPort" (some Kind.number) (some "bind")
    ∷ field "bind_interface" "bindInterface" (some Kind.network_interface) (some "bind")
    ∷ with_ref Ref.inbound (field "detour" "detour" (some Kind.ref) (some "bind"))
    ∷ field "routing_mark" "routingMark" none (some "bind")
    ∷ field "reuse_addr" "reuseAddress" (some Kind.boolean) (some "bind")
    ∷ field "netns" "networkNamespace" none (some "bind")
    ∷ field "tcp_fast_open" "tcpFastOpen" (some Kind.boolean) (some "tcp")
    ∷ field "tcp_multi_path" "tcpMultiPath" (some Kind.boolean) (some "tcp")
    ∷ field "disable_tcp_keep_alive" "disableTCPKeepAlive" (some Kind.boolean) (some "tcp")
    ∷ with_when ((when_falsy "disable_tcp_keep_alive") ∷ [])
        (field "tcp_keep_alive" "tcpKeepAlive" none (some "tcp"))
    ∷ with_when ((when_falsy "disable_tcp_keep_alive") ∷ [])
        (field "tcp_keep_alive_interval" "tcpKeepAliveInterval" none (some "tcp"))
    ∷ field "udp_fragment" "udpFragment" (some Kind.boolean) (some "udp")
    ∷ field "udp_timeout" "udpTimeout" none (some "udp")
    ∷ []

abbrev pub network : ProxyFieldSpec
network = field "network" "network" (some Kind.network_multi) (some "protocol")

abbrev pub protocol_map : FieldTable Kind Ref
protocol_map =
    (
      "mixed",
      field "users" "users" (some Kind.users) (some "auth")
          ∷ with_ref Ref.dns_server
              (field "domain_resolver" "domainResolver" (some Kind.ref) (some "protocol"))
          ∷ field "set_system_proxy" "setSystemProxy" (some Kind.boolean) (some "protocol")
          ∷ [],
    )
    ∷ (
      "socks",
      field "users" "users" (some Kind.users) (some "auth")
          ∷ with_ref Ref.dns_server
              (field "domain_resolver" "domainResolver" (some Kind.ref) (some "protocol"))
          ∷ [],
    )
    ∷ (
      "http",
      field "users" "users" (some Kind.users) (some "auth")
          ∷ with_ref Ref.dns_server
              (field "domain_resolver" "domainResolver" (some Kind.ref) (some "protocol"))
          ∷ field "set_system_proxy" "setSystemProxy" (some Kind.boolean) (some "protocol")
          ∷ [],
    )
    ∷ (
      "direct",
      network
          ∷ field "override_address" "overrideAddress" none none
          ∷ field "override_port" "overridePort" (some Kind.number) none
          ∷ [],
    )
    ∷ (
      "shadowsocks",
      network
          ∷ with_options
              ("2022-blake3-aes-128-gcm" ∷ "2022-blake3-aes-256-gcm"
                ∷ "2022-blake3-chacha20-poly1305" ∷ "aes-128-gcm" ∷ "aes-192-gcm" ∷ "aes-256-gcm"
                ∷ "chacha20-ietf-poly1305" ∷ "xchacha20-ietf-poly1305" ∷ "none" ∷ [])
              (field "method" "method" (some Kind.select) (some "auth"))
          ∷ field "password" "password" none (some "auth")
          ∷ field "users" "users" (some Kind.users) (some "auth")
          ∷ field "managed" "managed" (some Kind.boolean) (some "protocol")
          ∷ [],
    )
    ∷ ("vmess", field "users" "users" (some Kind.users) (some "auth") ∷ [])
    ∷ ("vless", field "users" "users" (some Kind.users) (some "auth") ∷ [])
    ∷ ("trojan", field "users" "users" (some Kind.users) (some "auth") ∷ [])
    ∷ (
      "naive",
      field "users" "users" (some Kind.users) (some "auth")
          ∷ network
          ∷ field "quic_congestion_control" "congestionControl" none none
          ∷ [],
    )
    ∷ (
      "hysteria",
      field "up" "uploadBandwidth" none none
          ∷ field "up_mbps" "uploadMbps" (some Kind.number) none
          ∷ field "down" "downloadBandwidth" none none
          ∷ field "down_mbps" "downloadMbps" (some Kind.number) none
          ∷ field "obfs" "obfuscation" none none
          ∷ field "users" "users" (some Kind.users) (some "auth")
          ∷ field "recv_window_conn" "receiveWindowConnection" (some Kind.number) none
          ∷ field "recv_window_client" "receiveWindowClient" (some Kind.number) none
          ∷ field "max_conn_client" "maxClientConnections" (some Kind.number) none
          ∷ field "disable_mtu_discovery" "disableMTUDiscovery" (some Kind.boolean) none
          ∷ [],
    )
    ∷ (
      "hysteria2",
      field "up_mbps" "uploadMbps" (some Kind.number) none
          ∷ field "down_mbps" "downloadMbps" (some Kind.number) none
          ∷ with_options ("" ∷ "salamander" ∷ [])
              (field "obfs.type" "obfuscationType" (some Kind.select) none)
          ∷ with_when ((when_is "obfs.type" (string "salamander" ∷ [])) ∷ [])
              (field "obfs.password" "obfuscationPassword" none none)
          ∷ field "users" "users" (some Kind.users) (some "auth")
          ∷ field "ignore_client_bandwidth" "ignoreClientBandwidth" (some Kind.boolean) none
          ∷ field "masquerade" "masquerade" none none
          ∷ field "brutal_debug" "brutalDebug" (some Kind.boolean) none
          ∷ [],
    )
    ∷ (
      "tuic",
      field "users" "users" (some Kind.users) (some "auth")
          ∷ field "congestion_control" "congestionControl" none none
          ∷ field "auth_timeout" "authenticationTimeout" none none
          ∷ field "zero_rtt_handshake" "zeroRTTHandshake" (some Kind.boolean) none
          ∷ field "heartbeat" "heartbeat" none none
          ∷ [],
    )
    ∷ (
      "shadowtls",
      field "version" "version" (some Kind.number) none
          ∷ field "password" "password" none none
          ∷ field "users" "users" (some Kind.users) (some "auth")
          ∷ field "handshake.server" "handshakeServer" none none
          ∷ field "handshake.server_port" "handshakePort" (some Kind.number) none
          ∷ field "strict_mode" "strictMode" (some Kind.boolean) none
          ∷ with_options ("" ∷ "off" ∷ "authed" ∷ "all" ∷ [])
              (field "wildcard_sni" "wildcardSNI" (some Kind.select) none)
          ∷ [],
    )
    ∷ (
      "anytls",
      field "users" "users" (some Kind.users) (some "auth")
          ∷ field "padding_scheme" "paddingScheme" none none
          ∷ [],
    )
    ∷ ("tproxy", network ∷ [])
    ∷ ("redirect", [])
    ∷ ("tun", [])
    ∷ []

abbrev pub tun_fields : List ProxyFieldSpec
tun_fields =
    field "interface_name" "interfaceName" none (some "tunBasic")
    ∷ field "mtu" "mtu" (some Kind.number) (some "tunBasic")
    ∷ field "address" "tunAddress" (some Kind.list) (some "tunBasic")
    ∷ with_options ("" ∷ "system" ∷ "gvisor" ∷ "mixed" ∷ [])
        (field "stack" "stack" (some Kind.select) (some "tunBasic"))
    ∷ field "auto_route" "autoRoute" (some Kind.boolean) (some "tunRoute")
    ∷ with_when ((when_is "auto_route" (boolean true ∷ [])) ∷ [])
        (field "iproute2_table_index" "ipRouteTableIndex" (some Kind.number) (some "tunRoute"))
    ∷ with_when ((when_is "auto_route" (boolean true ∷ [])) ∷ [])
        (field "iproute2_rule_index" "ipRouteRuleIndex" (some Kind.number) (some "tunRoute"))
    ∷ field "auto_redirect" "autoRedirect" (some Kind.boolean) (some "tunRedirect")
    ∷ with_when ((when_is "auto_redirect" (boolean true ∷ [])) ∷ [])
        (field "auto_redirect_input_mark" "autoRedirectInputMark" none (some "tunRedirect"))
    ∷ with_when ((when_is "auto_redirect" (boolean true ∷ [])) ∷ [])
        (field "auto_redirect_output_mark" "autoRedirectOutputMark" none (some "tunRedirect"))
    ∷ with_when ((when_is "auto_redirect" (boolean true ∷ [])) ∷ [])
        (field "auto_redirect_reset_mark" "autoRedirectResetMark" none (some "tunRedirect"))
    ∷ with_when ((when_is "auto_redirect" (boolean true ∷ [])) ∷ []) (
        field "auto_redirect_nfqueue" "autoRedirectNFQueue" (some Kind.number) (some "tunRedirect"))
    ∷ with_when ((when_is "auto_redirect" (boolean true ∷ [])) ∷ []) (
        field "auto_redirect_iproute2_fallback_rule_index" "autoRedirectFallbackRuleIndex"
          (some Kind.number) (some "tunRedirect"))
    ∷ field "loopback_address" "loopbackAddress" (some Kind.list) (some "tunRoute")
    ∷ field "strict_route" "strictRoute" (some Kind.boolean) (some "tunRoute")
    ∷ field "route_address" "routeAddress" (some Kind.list) (some "tunRoute")
    ∷ field "route_address_set" "routeAddressSet" (some Kind.list) (some "tunRoute")
    ∷ field "route_exclude_address" "routeExcludeAddress" (some Kind.list) (some "tunRoute")
    ∷ field "route_exclude_address_set" "routeExcludeAddressSet" (some Kind.list) (some "tunRoute")
    ∷ with_ref Ref.network_interface_multi
        (field "include_interface" "includeInterface" (some Kind.ref) (some "tunFilter"))
    ∷ with_ref Ref.network_interface_multi
        (field "exclude_interface" "excludeInterface" (some Kind.ref) (some "tunFilter"))
    ∷ field "include_uid" "includeUID" (some Kind.number_list) (some "tunFilter")
    ∷ field "exclude_uid" "excludeUID" (some Kind.number_list) (some "tunFilter")
    ∷ field "include_uid_range" "includeUIDRange" (some Kind.list) (some "tunFilter")
    ∷ field "exclude_uid_range" "excludeUIDRange" (some Kind.list) (some "tunFilter")
    ∷ field "include_android_user" "includeAndroidUser" (some Kind.number_list) (some "tunFilter")
    ∷ field "include_package" "includePackage" (some Kind.list) (some "tunFilter")
    ∷ field "exclude_package" "excludePackage" (some Kind.list) (some "tunFilter")
    ∷ field "udp_timeout" "udpTimeout" none (some "tunBasic")
    ∷ field "exclude_mptcp" "excludeMPTCP" (some Kind.boolean) (some "tunFilter")
    ∷ []
