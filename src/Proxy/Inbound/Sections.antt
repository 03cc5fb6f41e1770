-- ===== src/Proxy/Inbound/Sections.antt =====
-- The TLS, transport and multiplex tables of ui/src/features/proxy/inbound-form-model.ts.
use boxui.Base.{String, true, none, some, List, [], ◌∷◌}
use boxui.Json.{boolean, string}
use boxui.Form.{FieldWhen, FieldTable, field, with_options, with_when, when_is, when_set}
use boxui.Proxy.Kinds.{FieldKind as Kind, FieldRef as Ref, ProxyFieldSpec}

abbrev pub tls_on : FieldWhen
tls_on = when_is "tls.enabled" (boolean true ∷ [])

abbrev pub client_auth_on : List FieldWhen
client_auth_on =
    tls_on
    ∷ (when_is "tls.client_authentication" (
        string "request"
        ∷ string "require-any"
        ∷ string "verify-if-given"
        ∷ string "require-and-verify"
        ∷ []))
    ∷ []

abbrev pub acme_on : List FieldWhen
acme_on = tls_on ∷ (when_set "tls.acme.domain") ∷ []

abbrev pub ech_on : List FieldWhen
ech_on = tls_on ∷ (when_is "tls.ech.enabled" (boolean true ∷ [])) ∷ []

abbrev pub reality_on : List FieldWhen
reality_on = tls_on ∷ (when_is "tls.reality.enabled" (boolean true ∷ [])) ∷ []

abbrev pub tls_fields : List ProxyFieldSpec
tls_fields =
    field "tls.enabled" "tlsEnabled" (some Kind.boolean) (some "tlsBasic")
    ∷ with_when (tls_on ∷ []) (field "tls.server_name" "serverName" none (some "tlsBasic"))
    ∷ with_when (tls_on ∷ [])
        (field "tls.insecure" "insecure" (some Kind.boolean) (some "tlsBasic"))
    ∷ with_when (tls_on ∷ []) (field "tls.alpn" "alpn" (some Kind.list) (some "tlsBasic"))
    ∷ with_when (tls_on ∷ []) (
        with_options ("1.0" ∷ "1.1" ∷ "1.2" ∷ "1.3" ∷ [])
          (field "tls.min_version" "minimumTLSVersion" (some Kind.select) (some "tlsBasic")))
    ∷ with_when (tls_on ∷ []) (
        with_options ("1.0" ∷ "1.1" ∷ "1.2" ∷ "1.3" ∷ [])
          (field "tls.max_version" "maximumTLSVersion" (some Kind.select) (some "tlsBasic")))
    ∷ with_when (tls_on ∷ [])
        (field "tls.cipher_suites" "cipherSuites" (some Kind.list) (some "tlsBasic"))
    ∷ with_when (tls_on ∷ [])
        (field "tls.curve_preferences" "curvePreferences" (some Kind.list) (some "tlsBasic"))
    ∷ with_when (tls_on ∷ [])
        (field "tls.certificate" "certificate" (some Kind.textarea) (some "tlsCert"))
    ∷ with_when (tls_on ∷ []) (field "tls.certificate_path" "certificatePath" none (some "tlsCert"))
    ∷ with_when (tls_on ∷ []) (field "tls.key" "privateKey" (some Kind.textarea) (some "tlsCert"))
    ∷ with_when (tls_on ∷ []) (field "tls.key_path" "keyPath" none (some "tlsCert"))
    ∷ with_when (tls_on ∷ []) (
        with_options
          ("no" ∷ "request" ∷ "require-any" ∷ "verify-if-given" ∷ "require-and-verify" ∷ [])
          (field "tls.client_authentication" "clientAuthentication" (some Kind.select)
            (some "tlsClient")))
    ∷ with_when client_auth_on
        (field "tls.client_certificate" "clientCertificate" (some Kind.textarea) (some "tlsClient"))
    ∷ with_when client_auth_on (
        field "tls.client_certificate_path" "clientCertificatePath" (some Kind.list)
          (some "tlsClient"))
    ∷ with_when client_auth_on (
        field "tls.client_certificate_public_key_sha256" "clientCertificateSHA256" (some Kind.list)
          (some "tlsClient"))
    ∷ with_when (tls_on ∷ [])
        (field "tls.kernel_tx" "kernelTX" (some Kind.boolean) (some "tlsBasic"))
    ∷ with_when (tls_on ∷ [])
        (field "tls.kernel_rx" "kernelRX" (some Kind.boolean) (some "tlsBasic"))
    ∷ with_when (tls_on ∷ [])
        (field "tls.acme.domain" "acmeDomain" (some Kind.list) (some "tlsAcme"))
    ∷ with_when acme_on (field "tls.acme.data_directory" "acmeDataDirectory" none (some "tlsAcme"))
    ∷ with_when acme_on
        (field "tls.acme.default_server_name" "acmeDefaultServerName" none (some "tlsAcme"))
    ∷ with_when acme_on (field "tls.acme.email" "acmeEmail" none (some "tlsAcme"))
    ∷ with_when acme_on (field "tls.acme.provider" "acmeProvider" none (some "tlsAcme"))
    ∷ with_when acme_on (
        field "tls.acme.disable_http_challenge" "disableHTTPChallenge" (some Kind.boolean)
          (some "tlsAcme"))
    ∷ with_when acme_on (
        field "tls.acme.disable_tls_alpn_challenge" "disableTLSALPNChallenge" (some Kind.boolean)
          (some "tlsAcme"))
    ∷ with_when acme_on (
        field "tls.acme.alternative_http_port" "alternativeHTTPPort" (some Kind.number)
          (some "tlsAcme"))
    ∷ with_when acme_on (
        field "tls.acme.alternative_tls_port" "alternativeTLSPort" (some Kind.number)
          (some "tlsAcme"))
    ∷ with_when (tls_on ∷ [])
        (field "tls.ech.enabled" "echEnabled" (some Kind.boolean) (some "tlsEch"))
    ∷ with_when ech_on (field "tls.ech.key" "echKey" (some Kind.list) (some "tlsEch"))
    ∷ with_when ech_on (field "tls.ech.key_path" "echKeyPath" none (some "tlsEch"))
    ∷ with_when (tls_on ∷ [])
        (field "tls.reality.enabled" "realityEnabled" (some Kind.boolean) (some "tlsReality"))
    ∷ with_when reality_on
        (field "tls.reality.handshake.server" "realityHandshakeServer" none (some "tlsReality"))
    ∷ with_when reality_on (
        field "tls.reality.handshake.server_port" "realityHandshakePort" (some Kind.number)
          (some "tlsReality"))
    ∷ with_when reality_on
        (field "tls.reality.private_key" "realityPrivateKey" none (some "tlsReality"))
    ∷ with_when reality_on
        (field "tls.reality.short_id" "realityShortID" (some Kind.list) (some "tlsReality"))
    ∷ with_when reality_on (
        field "tls.reality.max_time_difference" "realityMaxTimeDifference" none (some "tlsReality"))
    ∷ []

abbrev pub transport_fields : List ProxyFieldSpec
transport_fields =
    with_options ("" ∷ "http" ∷ "ws" ∷ "quic" ∷ "grpc" ∷ "httpupgrade" ∷ [])
      (field "transport.type" "transportType" (some Kind.select) (some "transport"))
    ∷ []

abbrev pub transport_by_type : FieldTable Kind Ref
transport_by_type =
    (
      "http",
      field "transport.host" "transportHost" (some Kind.list) none
          ∷ field "transport.path" "transportPath" none none
          ∷ field "transport.method" "transportMethod" none none
          ∷ field "transport.headers" "transportHeaders" (some Kind.json_object) none
          ∷ field "transport.idle_timeout" "idleTimeout" none none
          ∷ field "transport.ping_timeout" "pingTimeout" none none
          ∷ [],
    )
    ∷ (
      "ws",
      field "transport.path" "transportPath" none none
          ∷ field "transport.headers" "transportHeaders" (some Kind.json_object) none
          ∷ field "transport.max_early_data" "maxEarlyData" (some Kind.number) none
          ∷ field "transport.early_data_header_name" "earlyDataHeaderName" none none
          ∷ [],
    )
    ∷ ("quic", [])
    ∷ (
      "grpc",
      field "transport.service_name" "serviceName" none none
          ∷ field "transport.idle_timeout" "idleTimeout" none none
          ∷ field "transport.ping_timeout" "pingTimeout" none none
          ∷ field "transport.permit_without_stream" "permitWithoutStream" (some Kind.boolean) none
          ∷ [],
    )
    ∷ (
      "httpupgrade",
      field "transport.host" "transportHost" none none
          ∷ field "transport.path" "transportPath" none none
          ∷ field "transport.headers" "transportHeaders" (some Kind.json_object) none
          ∷ [],
    )
    ∷ []

abbrev pub multiplex_fields : List ProxyFieldSpec
multiplex_fields =
    field "multiplex.enabled" "multiplexEnabled" (some Kind.boolean) (some "multiplex")
    ∷ with_when ((when_is "multiplex.enabled" (boolean true ∷ [])) ∷ [])
        (field "multiplex.padding" "multiplexPadding" (some Kind.boolean) (some "multiplex"))
    ∷ with_when ((when_is "multiplex.enabled" (boolean true ∷ [])) ∷ [])
        (field "multiplex.brutal.enabled" "brutalEnabled" (some Kind.boolean) (some "multiplex"))
    ∷ with_when
        ((when_is "multiplex.enabled" (boolean true ∷ []))
          ∷ (when_is "multiplex.brutal.enabled" (boolean true ∷ []))
          ∷ [])
        (field "multiplex.brutal.up_mbps" "uploadMbps" (some Kind.number) (some "multiplex"))
    ∷ with_when
        ((when_is "multiplex.enabled" (boolean true ∷ []))
          ∷ (when_is "multiplex.brutal.enabled" (boolean true ∷ []))
          ∷ [])
        (field "multiplex.brutal.down_mbps" "downloadMbps" (some Kind.number) (some "multiplex"))
    ∷ []

abbrev pub tls_types : List String
tls_types =
    ("http" ∷ "mixed" ∷ "vmess" ∷ "vless" ∷ "trojan" ∷ "naive" ∷ "hysteria" ∷ "hysteria2" ∷ "tuic"
      ∷ "anytls" ∷ [])

abbrev pub transport_types : List String
transport_types = ("vmess" ∷ "vless" ∷ "trojan" ∷ [])

abbrev pub multiplex_types : List String
multiplex_types = ("shadowsocks" ∷ "vmess" ∷ "vless" ∷ "trojan" ∷ [])
