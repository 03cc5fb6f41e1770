-- ===== src/Proxy/Outbound/Sections.antt =====
-- The TLS, multiplex and transport tables and the credential paths of
-- ui/src/features/proxy/outbound-form-model.ts.
use boxui.Base.{String, true, none, some, List, [], ◌∷◌}
use boxui.Json.{boolean}
use boxui.Form.{FieldWhen, FieldTable, field, with_options, with_when, when_is}
use boxui.Proxy.Kinds.{FieldKind as Kind, FieldRef as Ref, ProxyFieldSpec}

abbrev pub tls_versions : List String
tls_versions = ("1.0" ∷ "1.1" ∷ "1.2" ∷ "1.3" ∷ [])

abbrev pub tls_on : FieldWhen
tls_on = when_is "tls.enabled" (boolean true ∷ [])

abbrev pub utls_on : List FieldWhen
utls_on = tls_on ∷ (when_is "tls.utls.enabled" (boolean true ∷ [])) ∷ []

abbrev pub reality_on : List FieldWhen
reality_on = tls_on ∷ (when_is "tls.reality.enabled" (boolean true ∷ [])) ∷ []

abbrev pub ech_on : List FieldWhen
ech_on = tls_on ∷ (when_is "tls.ech.enabled" (boolean true ∷ [])) ∷ []

abbrev pub fragment_on : List FieldWhen
fragment_on = tls_on ∷ (when_is "tls.fragment" (boolean true ∷ [])) ∷ []

abbrev pub mux_on : FieldWhen
mux_on = when_is "multiplex.enabled" (boolean true ∷ [])

abbrev pub brutal_on : List FieldWhen
brutal_on = mux_on ∷ (when_is "multiplex.brutal.enabled" (boolean true ∷ [])) ∷ []

abbrev pub outbound_tls_fields : List ProxyFieldSpec
outbound_tls_fields =
    field "tls.enabled" "tlsEnabled" (some Kind.boolean) (some "tlsBasic")
    ∷ with_when (tls_on ∷ [])
        (field "tls.disable_sni" "disableSNI" (some Kind.boolean) (some "tlsBasic"))
    ∷ with_when (tls_on ∷ []) (field "tls.server_name" "serverName" none (some "tlsBasic"))
    ∷ with_when (tls_on ∷ [])
        (field "tls.insecure" "insecure" (some Kind.boolean) (some "tlsBasic"))
    ∷ with_when (tls_on ∷ []) (field "tls.alpn" "alpn" (some Kind.list) (some "tlsBasic"))
    ∷ with_when (tls_on ∷ []) (
        with_options tls_versions
          (field "tls.min_version" "minimumTLSVersion" (some Kind.select) (some "tlsBasic")))
    ∷ with_when (tls_on ∷ []) (
        with_options tls_versions
          (field "tls.max_version" "maximumTLSVersion" (some Kind.select) (some "tlsBasic")))
    ∷ with_when (tls_on ∷ [])
        (field "tls.cipher_suites" "cipherSuites" (some Kind.list) (some "tlsBasic"))
    ∷ with_when (tls_on ∷ [])
        (field "tls.curve_preferences" "curvePreferences" (some Kind.list) (some "tlsBasic"))
    ∷ with_when (tls_on ∷ [])
        (field "tls.certificate" "certificate" (some Kind.textarea) (some "tlsCert"))
    ∷ with_when (tls_on ∷ []) (field "tls.certificate_path" "certificatePath" none (some "tlsCert"))
    ∷ with_when (tls_on ∷ []) (
        field "tls.certificate_public_key_sha256" "certificateSHA256" (some Kind.list)
          (some "tlsCert"))
    ∷ with_when (tls_on ∷ [])
        (field "tls.client_certificate" "clientCertificate" (some Kind.textarea) (some "tlsCert"))
    ∷ with_when (tls_on ∷ [])
        (field "tls.client_certificate_path" "clientCertificatePath" none (some "tlsCert"))
    ∷ with_when (tls_on ∷ [])
        (field "tls.client_key" "clientKey" (some Kind.textarea) (some "tlsCert"))
    ∷ with_when (tls_on ∷ []) (field "tls.client_key_path" "clientKeyPath" none (some "tlsCert"))
    ∷ with_when (tls_on ∷ [])
        (field "tls.fragment" "tlsFragment" (some Kind.boolean) (some "tlsFragment"))
    ∷ with_when fragment_on
        (field "tls.fragment_fallback_delay" "fragmentFallbackDelay" none (some "tlsFragment"))
    ∷ with_when (tls_on ∷ [])
        (field "tls.record_fragment" "recordFragment" (some Kind.boolean) (some "tlsFragment"))
    ∷ with_when (tls_on ∷ [])
        (field "tls.kernel_tx" "kernelTX" (some Kind.boolean) (some "tlsBasic"))
    ∷ with_when (tls_on ∷ [])
        (field "tls.kernel_rx" "kernelRX" (some Kind.boolean) (some "tlsBasic"))
    ∷ with_when (tls_on ∷ [])
        (field "tls.ech.enabled" "echEnabled" (some Kind.boolean) (some "tlsEch"))
    ∷ with_when ech_on (field "tls.ech.config" "echConfig" (some Kind.list) (some "tlsEch"))
    ∷ with_when ech_on (field "tls.ech.config_path" "echConfigPath" none (some "tlsEch"))
    ∷ with_when ech_on (field "tls.ech.query_server_name" "echQueryServerName" none (some "tlsEch"))
    ∷ with_when (tls_on ∷ [])
        (field "tls.utls.enabled" "utlsEnabled" (some Kind.boolean) (some "tlsUtls"))
    ∷ with_when utls_on (field "tls.utls.fingerprint" "utlsFingerprint" none (some "tlsUtls"))
    ∷ with_when (tls_on ∷ [])
        (field "tls.reality.enabled" "realityEnabled" (some Kind.boolean) (some "tlsReality"))
    ∷ with_when reality_on
        (field "tls.reality.public_key" "realityPublicKey" none (some "tlsReality"))
    ∷ with_when reality_on (field "tls.reality.short_id" "realityShortID" none (some "tlsReality"))
    ∷ []

abbrev pub outbound_multiplex_fields : List ProxyFieldSpec
outbound_multiplex_fields =
    field "multiplex.enabled" "multiplexEnabled" (some Kind.boolean) (some "multiplex")
    ∷ with_when (mux_on ∷ []) (
        with_options ("smux" ∷ "yamux" ∷ "h2mux" ∷ [])
          (field "multiplex.protocol" "multiplexProtocol" (some Kind.select) (some "multiplex")))
    ∷ with_when (mux_on ∷ [])
        (field "multiplex.max_connections" "maxConnections" (some Kind.number) (some "multiplex"))
    ∷ with_when (mux_on ∷ [])
        (field "multiplex.min_streams" "minStreams" (some Kind.number) (some "multiplex"))
    ∷ with_when (mux_on ∷ [])
        (field "multiplex.max_streams" "maxStreams" (some Kind.number) (some "multiplex"))
    ∷ with_when (mux_on ∷ [])
        (field "multiplex.padding" "multiplexPadding" (some Kind.boolean) (some "multiplex"))
    ∷ with_when (mux_on ∷ [])
        (field "multiplex.brutal.enabled" "brutalEnabled" (some Kind.boolean) (some "multiplex"))
    ∷ with_when brutal_on
        (field "multiplex.brutal.up_mbps" "uploadMbps" (some Kind.number) (some "multiplex"))
    ∷ with_when brutal_on
        (field "multiplex.brutal.down_mbps" "downloadMbps" (some Kind.number) (some "multiplex"))
    ∷ []

abbrev pub transport_base : List ProxyFieldSpec
transport_base =
    with_options ("http" ∷ "ws" ∷ "quic" ∷ "grpc" ∷ "httpupgrade" ∷ [])
      (field "transport.type" "transportType" (some Kind.select) (some "transport"))
    ∷ []

abbrev pub transport_map : FieldTable Kind Ref
transport_map =
    (
      "http",
      field "transport.host" "transportHost" (some Kind.list) (some "transport")
          ∷ field "transport.path" "transportPath" none (some "transport")
          ∷ field "transport.method" "transportMethod" none (some "transport")
          ∷ field "transport.headers" "transportHeaders" (some Kind.json_object) (some "transport")
          ∷ field "transport.idle_timeout" "idleTimeout" none (some "transport")
          ∷ field "transport.ping_timeout" "pingTimeout" none (some "transport")
          ∷ [],
    )
    ∷ (
      "ws",
      field "transport.path" "transportPath" none (some "transport")
          ∷ field "transport.headers" "transportHeaders" (some Kind.json_object) (some "transport")
          ∷ field "transport.max_early_data" "maxEarlyData" (some Kind.number) (some "transport")
          ∷ field "transport.early_data_header_name" "earlyDataHeaderName" none (some "transport")
          ∷ [],
    )
    ∷ ("quic", [])
    ∷ (
      "grpc",
      field "transport.service_name" "serviceName" none (some "transport")
          ∷ field "transport.idle_timeout" "idleTimeout" none (some "transport")
          ∷ field "transport.ping_timeout" "pingTimeout" none (some "transport")
          ∷ field "transport.permit_without_stream" "permitWithoutStream" (some Kind.boolean)
              (some "transport")
          ∷ [],
    )
    ∷ (
      "httpupgrade",
      field "transport.host" "transportHost" none (some "transport")
          ∷ field "transport.path" "transportPath" none (some "transport")
          ∷ field "transport.headers" "transportHeaders" (some Kind.json_object) (some "transport")
          ∷ [],
    )
    ∷ []

abbrev pub credential_paths : List String
credential_paths =
    ("username" ∷ "password" ∷ "uuid" ∷ "flow" ∷ "security" ∷ "auth" ∷ "auth_str" ∷ "user"
      ∷ "private_key" ∷ "private_key_path" ∷ "private_key_passphrase" ∷ "obfs.password" ∷ [])

abbrev pub tls_credential_paths : List String
tls_credential_paths =
    ("tls.client_certificate" ∷ "tls.client_certificate_path" ∷ "tls.client_key"
      ∷ "tls.client_key_path" ∷ [])
