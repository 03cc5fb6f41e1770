-- ===== src/Advanced/Endpoints/Fields.antt =====
-- The field tables of ui/src/features/advanced/endpoints-form-model.ts.
use boxui.Base.{String, true, none, some, List, [], ◌∷◌, ◌++◌}
use boxui.Json.{boolean, string}
use boxui.Form.{
  FieldWhen, field, with_options, with_ref, with_when, is_required, when_is, when_falsy, when_set,
}
use boxui.Policy.Kinds.{PolicyFieldKind as Kind, PolicyFieldRef as Ref, PolicyFieldSpec}

abbrev pub endpoint_types : List String
endpoint_types = "wireguard" ∷ "tailscale" ∷ []

abbrev pub is_wire_guard : FieldWhen
is_wire_guard = when_is "type" (string "wireguard" ∷ [])

abbrev pub is_tailscale : FieldWhen
is_tailscale = when_is "type" (string "tailscale" ∷ [])

abbrev pub keep_alive_on : FieldWhen
keep_alive_on = when_falsy "disable_tcp_keep_alive"

abbrev pub resolver_on : FieldWhen
resolver_on = when_set "domain_resolver.server"

abbrev pub exit_node_on : FieldWhen
exit_node_on = when_set "exit_node"

abbrev pub system_if_on : FieldWhen
system_if_on = when_is "system_interface" (boolean true ∷ [])

abbrev pub endpoint_identity_fields : List PolicyFieldSpec
endpoint_identity_fields =
    is_required
      (with_options endpoint_types (field "type" "type" (some Kind.select) (some "basic")))
    ∷ is_required (field "tag" "tag" none (some "basic"))
    ∷ []

abbrev pub wire_guard_fields : List PolicyFieldSpec
wire_guard_fields =
    with_when (is_wire_guard ∷ []) (field "system" "system" (some Kind.boolean) (some "wireguard"))
    ∷ with_when (is_wire_guard ∷ []) (field "name" "interfaceName" none (some "wireguard"))
    ∷ with_when (is_wire_guard ∷ []) (field "mtu" "mtu" (some Kind.number) (some "wireguard"))
    ∷ with_when (is_wire_guard ∷ [])
        (is_required (field "address" "address" (some Kind.list) (some "wireguard")))
    ∷ with_when (is_wire_guard ∷ [])
        (is_required (field "private_key" "privateKey" none (some "wireguard")))
    ∷ with_when (is_wire_guard ∷ [])
        (field "listen_port" "listenPort" (some Kind.number) (some "wireguard"))
    ∷ with_when (is_wire_guard ∷ [])
        (field "peers" "peers" (some Kind.json_array) (some "wireguard"))
    ∷ with_when (is_wire_guard ∷ []) (field "udp_timeout" "udpTimeout" none (some "wireguard"))
    ∷ with_when (is_wire_guard ∷ [])
        (field "workers" "workers" (some Kind.number) (some "wireguard"))
    ∷ []

abbrev pub tailscale_fields : List PolicyFieldSpec
tailscale_fields =
    with_when (is_tailscale ∷ []) (field "state_directory" "stateDirectory" none (some "tailscale"))
    ∷ with_when (is_tailscale ∷ []) (field "auth_key" "authKey" none (some "tailscale"))
    ∷ with_when (is_tailscale ∷ []) (field "control_url" "controlURL" none (some "tailscale"))
    ∷ with_when (is_tailscale ∷ [])
        (field "ephemeral" "ephemeral" (some Kind.boolean) (some "tailscale"))
    ∷ with_when (is_tailscale ∷ []) (field "hostname" "hostname" none (some "tailscale"))
    ∷ with_when (is_tailscale ∷ [])
        (field "accept_routes" "acceptRoutes" (some Kind.boolean) (some "tailscale"))
    ∷ with_when (is_tailscale ∷ []) (field "exit_node" "exitNode" none (some "tailscale"))
    ∷ with_when (is_tailscale ∷ exit_node_on ∷ []) (
        field "exit_node_allow_lan_access" "exitNodeAllowLANAccess" (some Kind.boolean)
          (some "tailscale"))
    ∷ with_when (is_tailscale ∷ [])
        (field "advertise_routes" "advertiseRoutes" (some Kind.list) (some "tailscale"))
    ∷ with_when (is_tailscale ∷ [])
        (field "advertise_exit_node" "advertiseExitNode" (some Kind.boolean) (some "tailscale"))
    ∷ with_when (is_tailscale ∷ [])
        (field "advertise_tags" "advertiseTags" (some Kind.list) (some "tailscale"))
    ∷ with_when (is_tailscale ∷ [])
        (field "relay_server_port" "relayServerPort" (some Kind.number) (some "tailscale"))
    ∷ with_when (is_tailscale ∷ []) (
        field "relay_server_static_endpoints" "relayServerStaticEndpoints" (some Kind.list)
          (some "tailscale"))
    ∷ with_when (is_tailscale ∷ [])
        (field "system_interface" "systemInterface" (some Kind.boolean) (some "tailscale"))
    ∷ with_when (is_tailscale ∷ system_if_on ∷ [])
        (field "system_interface_name" "systemInterfaceName" none (some "tailscale"))
    ∷ with_when (is_tailscale ∷ system_if_on ∷ [])
        (field "system_interface_mtu" "systemInterfaceMTU" (some Kind.number) (some "tailscale"))
    ∷ with_when (is_tailscale ∷ []) (field "udp_timeout" "udpTimeout" none (some "tailscale"))
    ∷ []

abbrev pub endpoint_dialer_fields : List PolicyFieldSpec
endpoint_dialer_fields =
    with_ref Ref.outbound (field "detour" "detour" (some Kind.ref) (some "dialer"))
    ∷ field "bind_interface" "bindInterface" (some Kind.network_interface) (some "dialer")
    ∷ field "inet4_bind_address" "inet4BindAddress" none (some "dialer")
    ∷ field "inet6_bind_address" "inet6BindAddress" none (some "dialer")
    ∷ field "bind_address_no_port" "bindAddressNoPort" (some Kind.boolean) (some "dialer")
    ∷ field "protect_path" "protectPath" none (some "dialer")
    ∷ field "routing_mark" "routingMark" none (some "dialer")
    ∷ field "reuse_addr" "reuseAddress" (some Kind.boolean) (some "dialer")
    ∷ field "netns" "networkNamespace" none (some "dialer")
    ∷ field "connect_timeout" "connectTimeout" none (some "dialer")
    ∷ field "tcp_fast_open" "tcpFastOpen" (some Kind.boolean) (some "dialer")
    ∷ field "tcp_multi_path" "tcpMultiPath" (some Kind.boolean) (some "dialer")
    ∷ field "disable_tcp_keep_alive" "disableTCPKeepAlive" (some Kind.boolean) (some "dialer")
    ∷ with_when (keep_alive_on ∷ []) (field "tcp_keep_alive" "tcpKeepAlive" none (some "dialer"))
    ∷ with_when (keep_alive_on ∷ [])
        (field "tcp_keep_alive_interval" "tcpKeepAliveInterval" none (some "dialer"))
    ∷ field "udp_fragment" "udpFragment" (some Kind.boolean) (some "dialer")
    ∷ with_ref Ref.dns_server
        (field "domain_resolver.server" "domainResolverServer" (some Kind.ref) (some "dialer"))
    ∷ with_when (resolver_on ∷ []) (
        with_options ("prefer_ipv4" ∷ "prefer_ipv6" ∷ "ipv4_only" ∷ "ipv6_only" ∷ []) (
          field "domain_resolver.strategy" "domainResolverStrategy" (some Kind.select)
            (some "dialer")))
    ∷ with_when (resolver_on ∷ []) (
        field "domain_resolver.disable_cache" "domainResolverDisableCache" (some Kind.boolean)
          (some "dialer"))
    ∷ with_when (resolver_on ∷ []) (
        field "domain_resolver.rewrite_ttl" "domainResolverRewriteTTL" (some Kind.number)
          (some "dialer"))
    ∷ with_when (resolver_on ∷ [])
        (field "domain_resolver.client_subnet" "domainResolverClientSubnet" none (some "dialer"))
    ∷ with_options ("default" ∷ "fallback" ∷ "hybrid" ∷ "prefer_ipv4" ∷ "prefer_ipv6" ∷ [])
        (field "network_strategy" "networkStrategy" (some Kind.select) (some "dialer"))
    ∷ field "network_type" "networkType" (some Kind.list) (some "dialer")
    ∷ field "fallback_network_type" "fallbackNetworkType" (some Kind.list) (some "dialer")
    ∷ field "fallback_delay" "fallbackDelay" none (some "dialer")
    ∷ []

abbrev pub endpoint_fields : List PolicyFieldSpec
endpoint_fields =
    endpoint_identity_fields ++ wire_guard_fields ++ tailscale_fields ++ endpoint_dialer_fields
