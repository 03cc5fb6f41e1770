-- ===== src/Proxy/Outbound/Protocols.antt =====
-- The protocol and group tables of ui/src/features/proxy/outbound-form-model.ts.
use boxui.Base.{true, none, some, List, [], ◌∷◌, ◌++◌}
use boxui.Json.{boolean, string}
use boxui.Form.{FieldTable, field, with_options, with_when, when_is}
use boxui.Proxy.Kinds.{FieldKind as Kind, FieldRef as Ref, ProxyFieldSpec}
use boxui.Proxy.Outbound.Fields.{ss_methods, udp_over_tcp_on}

abbrev pub network : ProxyFieldSpec
network = field "network" "network" (some Kind.network_multi) (some "protocol")

abbrev pub udp_over_tcp : List ProxyFieldSpec
udp_over_tcp =
    field "udp_over_tcp.enabled" "udpOverTCPEnabled" (some Kind.boolean) (some "protocol")
    ∷ with_when (udp_over_tcp_on ∷ [])
        (field "udp_over_tcp.version" "udpOverTCPVersion" (some Kind.number) (some "protocol"))
    ∷ []

abbrev pub protocol_map : FieldTable Kind Ref
protocol_map =
    ("direct", [])
    ∷ ("block", [])
    ∷ ("selector", [])
    ∷ ("urltest", [])
    ∷ (
      "socks",
      (with_options ("4" ∷ "4a" ∷ "5" ∷ [])
              (field "version" "version" (some Kind.select) (some "auth"))
            ∷ field "username" "username" none (some "auth")
            ∷ field "password" "password" none (some "auth")
            ∷ network
            ∷ [])
          ++ udp_over_tcp,
    )
    ∷ (
      "http",
      field "username" "username" none (some "auth")
          ∷ field "password" "password" none (some "auth")
          ∷ field "path" "httpPath" none (some "protocol")
          ∷ field "headers" "headers" (some Kind.json_object) (some "protocol")
          ∷ [],
    )
    ∷ (
      "shadowsocks",
      (with_options ss_methods (field "method" "method" (some Kind.select) (some "auth"))
            ∷ field "password" "password" none (some "auth")
            ∷ field "plugin" "plugin" none (some "protocol")
            ∷ field "plugin_opts" "pluginOptions" none (some "protocol")
            ∷ network
            ∷ [])
          ++ udp_over_tcp,
    )
    ∷ (
      "vmess",
      field "uuid" "uuid" none (some "auth")
          ∷ with_options ("auto" ∷ "none" ∷ "zero" ∷ "aes-128-gcm" ∷ "chacha20-poly1305" ∷ [])
              (field "security" "security" (some Kind.select) (some "auth"))
          ∷ field "alter_id" "alterId" (some Kind.number) (some "auth")
          ∷ field "global_padding" "globalPadding" (some Kind.boolean) (some "protocol")
          ∷ field "authenticated_length" "authenticatedLength" (some Kind.boolean) (some "protocol")
          ∷ network
          ∷ with_options ("packetaddr" ∷ "xudp" ∷ [])
              (field "packet_encoding" "packetEncoding" (some Kind.select) (some "protocol"))
          ∷ [],
    )
    ∷ (
      "vless",
      field "uuid" "uuid" none (some "auth")
          ∷ with_options ("xtls-rprx-vision" ∷ [])
              (field "flow" "flow" (some Kind.select) (some "auth"))
          ∷ network
          ∷ with_options ("packetaddr" ∷ "xudp" ∷ [])
              (field "packet_encoding" "packetEncoding" (some Kind.select) (some "protocol"))
          ∷ [],
    )
    ∷ ("trojan", field "password" "password" none (some "auth") ∷ network ∷ [])
    ∷ (
      "naive",
      (field "username" "username" none (some "auth")
            ∷ field "password" "password" none (some "auth")
            ∷ field "insecure_concurrency" "insecureConcurrency" (some Kind.number)
                (some "protocol")
            ∷ field "extra_headers" "extraHeaders" (some Kind.json_object) (some "protocol")
            ∷ field "stream_receive_window" "streamReceiveWindow" none (some "protocol")
            ∷ [])
          ++ udp_over_tcp
          ++ (field "quic" "quic" (some Kind.boolean) (some "protocol")
              ∷ with_when ((when_is "quic" (boolean true ∷ [])) ∷ [])
                  (field "quic_congestion_control" "quicCongestionControl" none (some "protocol"))
              ∷ with_when ((when_is "quic" (boolean true ∷ [])) ∷ []) (
                  field "quic_session_receive_window" "quicSessionReceiveWindow" none
                    (some "protocol"))
              ∷ []),
    )
    ∷ (
      "hysteria",
      field "server_ports" "serverPorts" (some Kind.list) (some "protocol")
          ∷ field "hop_interval" "hopInterval" none (some "protocol")
          ∷ field "up" "uploadBandwidth" none (some "protocol")
          ∷ field "up_mbps" "uploadMbps" (some Kind.number) (some "protocol")
          ∷ field "down" "downloadBandwidth" none (some "protocol")
          ∷ field "down_mbps" "downloadMbps" (some Kind.number) (some "protocol")
          ∷ field "obfs" "obfuscation" none (some "protocol")
          ∷ field "auth" "auth" none (some "auth")
          ∷ field "auth_str" "authString" none (some "auth")
          ∷ field "recv_window_conn" "receiveWindowConnection" (some Kind.number) (some "protocol")
          ∷ field "recv_window" "receiveWindow" (some Kind.number) (some "protocol")
          ∷ field "disable_mtu_discovery" "disableMTUDiscovery" (some Kind.boolean)
              (some "protocol")
          ∷ network
          ∷ [],
    )
    ∷ (
      "hysteria2",
      field "server_ports" "serverPorts" (some Kind.list) (some "protocol")
          ∷ field "hop_interval" "hopInterval" none (some "protocol")
          ∷ field "up_mbps" "uploadMbps" (some Kind.number) (some "protocol")
          ∷ field "down_mbps" "downloadMbps" (some Kind.number) (some "protocol")
          ∷ with_options ("salamander" ∷ [])
              (field "obfs.type" "obfuscationType" (some Kind.select) (some "protocol"))
          ∷ with_when ((when_is "obfs.type" (string "salamander" ∷ [])) ∷ [])
              (field "obfs.password" "obfuscationPassword" none (some "protocol"))
          ∷ field "password" "password" none (some "auth")
          ∷ network
          ∷ field "brutal_debug" "brutalDebug" (some Kind.boolean) (some "protocol")
          ∷ [],
    )
    ∷ (
      "tuic",
      field "uuid" "uuid" none (some "auth")
          ∷ field "password" "password" none (some "auth")
          ∷ with_options ("cubic" ∷ "new_reno" ∷ "bbr" ∷ [])
              (field "congestion_control" "congestionControl" (some Kind.select) (some "protocol"))
          ∷ with_options ("native" ∷ "quic" ∷ [])
              (field "udp_relay_mode" "udpRelayMode" (some Kind.select) (some "protocol"))
          ∷ field "udp_over_stream" "udpOverStream" (some Kind.boolean) (some "protocol")
          ∷ field "zero_rtt_handshake" "zeroRTTHandshake" (some Kind.boolean) (some "protocol")
          ∷ field "heartbeat" "heartbeat" none (some "protocol")
          ∷ network
          ∷ [],
    )
    ∷ (
      "ssh",
      field "user" "sshUser" none (some "auth")
          ∷ field "password" "password" none (some "auth")
          ∷ field "private_key" "privateKey" (some Kind.textarea) (some "auth")
          ∷ field "private_key_path" "privateKeyPath" none (some "auth")
          ∷ field "private_key_passphrase" "privateKeyPassphrase" none (some "auth")
          ∷ field "host_key" "hostKey" (some Kind.list) (some "protocol")
          ∷ field "host_key_algorithms" "hostKeyAlgorithms" (some Kind.list) (some "protocol")
          ∷ field "client_version" "clientVersion" none (some "protocol")
          ∷ [],
    )
    ∷ (
      "tor",
      field "executable_path" "executablePath" none (some "protocol")
          ∷ field "extra_args" "extraArguments" (some Kind.list) (some "protocol")
          ∷ field "data_directory" "dataDirectory" none (some "protocol")
          ∷ field "torrc" "torOptions" (some Kind.json_object) (some "protocol")
          ∷ [],
    )
    ∷ (
      "shadowtls",
      field "version" "version" (some Kind.number) (some "protocol")
          ∷ field "password" "password" none (some "auth")
          ∷ field "server_name" "serverName" none (some "protocol")
          ∷ [],
    )
    ∷ (
      "anytls",
      field "password" "password" none (some "auth")
          ∷ field "idle_session_check_interval" "idleSessionCheckInterval" none (some "protocol")
          ∷ field "idle_session_timeout" "idleSessionTimeout" none (some "protocol")
          ∷ field "min_idle_session" "minimumIdleSession" (some Kind.number) (some "protocol")
          ∷ [],
    )
    ∷ []

abbrev pub group_map : FieldTable Kind Ref
group_map =
    (
      "selector",
      field "outbounds" "groupOutbounds" (some Kind.list) (some "group")
          ∷ field "default" "groupDefault" none (some "group")
          ∷ field "interrupt_exist_connections" "interruptConnections" (some Kind.boolean)
              (some "group")
          ∷ [],
    )
    ∷ (
      "urltest",
      field "outbounds" "groupOutbounds" (some Kind.list) (some "group")
          ∷ field "url" "urlTestURL" none (some "group")
          ∷ field "interval" "urlTestInterval" none (some "group")
          ∷ field "tolerance" "urlTestTolerance" (some Kind.number) (some "group")
          ∷ field "idle_timeout" "idleTimeout" none (some "group")
          ∷ field "interrupt_exist_connections" "interruptConnections" (some Kind.boolean)
              (some "group")
          ∷ [],
    )
    ∷ []
