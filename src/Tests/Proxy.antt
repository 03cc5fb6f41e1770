-- ===== src/Tests/Proxy.antt =====
-- The proxy forms: an outbound and an inbound that change their type.
use boxui.Base.{
  String, true, false, not, none, [], ◌∷◌, ◌++◌, ◌||◌, ◌≡◌, ◌≢◌, refl, All, Memᴰ, includes,
  distinct, ◌==◌,
}
use boxui.Json.{boolean, string, object, JsonObject, empty, property, lookup, array, nil}
use boxui.Json.Print.{to_string, coalesce}
use boxui.Form.{field, table_get}
use boxui.Policy.FormModel.Access.{clashes}
use boxui.Policy.Route.Change.{text_at}
use boxui.Policy.FormModel.{prune_invisible_policy_fields}
use boxui.Proxy.Kinds.{FieldKind, FieldRef, ProxyFieldSpec}
use boxui.Proxy.FormModel.{get_path, prune_invisible_fields}
use boxui.Proxy.FormModel.Agreement.{prune_invisible_fields-agree}
use boxui.Proxy.Outbound.Sections.{credential_paths, tls_credential_paths}
use boxui.Proxy.Outbound.Change as Outbound
use boxui.Proxy.Outbound.Change.{known_protocol_fields, field_paths, change_outbound_type}
use boxui.Proxy.Outbound.Change.Removals.{touched_paths}
use boxui.Proxy.Outbound.Change.Effect.{change_outbound_type-credentials}
use boxui.Proxy.Outbound.Change.Ownership as Ownership
use boxui.Proxy.Outbound.Change.Ownership.{
  OutboundSection, change_outbound_type-section, change_outbound_type-foreign,
}
use boxui.Proxy.Inbound.Fields.{listen_fields, tun_fields}
use boxui.Proxy.Inbound.Change.{protocol_fields, has_field, change_inbound_type}
use boxui.Proxy.Inbound.Change.Steps.{touched_fields}
use boxui.Proxy.Inbound.Change.Effect.{change_inbound_type-dropped}
use boxui.Proxy.Inbound.Change.Sections.{InboundSection, section_types}
use boxui.Tests.Evidence.{item_at, item_at-mem, none-All, texts-differ}

abbrev outbound : JsonObject
outbound = property "type" (string "vmess") (
    property "tag" (string "proxy") (
      property "uuid" (string "secret") (
        property "alter_id" (string "0")
          (property "tls" (object (property "enabled" (boolean true) empty)) empty))))

is_vmess : (text_at "type" "" outbound == "shadowsocks") ≡ false
unfolding text_at to_string coalesce lookup
is_vmess = refl

outbound_changes : text_at "type" "" outbound ≢ "shadowsocks"
outbound_changes = texts-differ (text_at "type" "" outbound) "shadowsocks" is_vmess

uuid-mem :
    Memᴰ
      (item_at "" (credential_paths ++ tls_credential_paths) 2)
      (credential_paths ++ tls_credential_paths)
uuid-mem = item_at-mem "" (credential_paths ++ tls_credential_paths) 2 refl

outbound_credentials_example : get_path (change_outbound_type outbound "shadowsocks") "uuid" ≡ none
outbound_credentials_example =
    change_outbound_type-credentials outbound "shadowsocks" outbound_changes uuid-mem

no_tls : includes (Ownership.section_types OutboundSection.tls) "shadowsocks" ≡ false
no_tls = refl

outbound_section_example : get_path (change_outbound_type outbound "shadowsocks") "tls" ≡ none
outbound_section_example =
    change_outbound_type-section outbound "shadowsocks" OutboundSection.tls outbound_changes no_tls

-- A path of another protocol.
abbrev foreign_path : String
foreign_path = item_at "" (distinct (field_paths known_protocol_fields)) 13

foreign-mem :
    Memᴰ
      (item_at "" (distinct (field_paths known_protocol_fields)) 13)
      (distinct (field_paths known_protocol_fields))
unfolding known_protocol_fields distinct
foreign-mem = item_at-mem "" (distinct (field_paths known_protocol_fields)) 13 refl

is_foreign :
    includes
      (field_paths (Outbound.protocol_fields "shadowsocks" ++ Outbound.group_fields "shadowsocks"))
      foreign_path
    ≡ false
unfolding Outbound.protocol_fields Outbound.group_fields known_protocol_fields distinct table_get
is_foreign = refl

outbound_foreign_example :
    get_path (change_outbound_type outbound "shadowsocks") foreign_path ≡ none
outbound_foreign_example =
    change_outbound_type-foreign outbound "shadowsocks" outbound_changes foreign-mem is_foreign

tag_apart : clashes "type" "tag" ≡ false
unfolding clashes
tag_apart = refl

tag_untouched : All (λ p. clashes p "tag" ≡ false) touched_paths
unfolding clashes distinct known_protocol_fields
tag_untouched = none-All (λ p. clashes p "tag") touched_paths refl

abbrev inbound : JsonObject
inbound = property "type" (string "vless") (
    property "tag" (string "in") (
      property "users" (array nil)
        (property "tls" (object (property "enabled" (boolean true) empty)) empty)))

abbrev tun : JsonObject
tun =
    property "type" (string "tun")
      (property "mtu" (string "1500") (property "udp_timeout" (string "5m") empty))

is_vless : (text_at "type" "" inbound == "socks") ≡ false
unfolding text_at to_string coalesce lookup
is_vless = refl

inbound_changes : text_at "type" "" inbound ≢ "socks"
inbound_changes = texts-differ (text_at "type" "" inbound) "socks" is_vless

abbrev no_field : ProxyFieldSpec
no_field = field "" "" none none

-- The users of the inbound.
abbrev users_field : ProxyFieldSpec
users_field = item_at no_field (protocol_fields "vless") 0

users-mem : Memᴰ users_field (protocol_fields (text_at "type" "" inbound))
unfolding protocol_fields text_at to_string coalesce lookup table_get
users-mem = item_at-mem no_field (protocol_fields "vless") 0 refl

users_dropped :
    ((users_field.path == "users") || not (has_field (protocol_fields "socks") users_field)) ≡ true
unfolding protocol_fields table_get has_field
users_dropped = refl

inbound_dropped_example : get_path (change_inbound_type inbound "socks") users_field.path ≡ none
inbound_dropped_example =
    change_inbound_type-dropped inbound "socks" inbound_changes users-mem users_dropped

had_tls : includes (section_types InboundSection.tls) (text_at "type" "" inbound) ≡ true
unfolding text_at to_string coalesce lookup
had_tls = refl

has_no_tls : includes (section_types InboundSection.tls) "socks" ≡ false
has_no_tls = refl

keys_apart : All (λ p. clashes p "tag" ≡ false) ("type" ∷ "tls" ∷ "transport" ∷ "multiplex" ∷ [])
unfolding clashes
keys_apart = none-All (λ p. clashes p "tag") ("type" ∷ "tls" ∷ "transport" ∷ "multiplex" ∷ []) refl

tag_kept : All (λ f. clashes f.path "tag" ≡ false) (touched_fields (text_at "type" "" inbound))
unfolding clashes protocol_fields table_get text_at to_string coalesce lookup
tag_kept = none-All (λ f. clashes f.path "tag") (touched_fields (text_at "type" "" inbound)) refl

is_tun : text_at "type" "" tun ≡ "tun"
unfolding text_at to_string coalesce lookup
is_tun = refl

socks_is_other : ("socks" == "tun") ≡ false
socks_is_other = refl

abbrev tun_field : ProxyFieldSpec
tun_field = item_at no_field tun_fields 2

tun_field-mem : Memᴰ tun_field tun_fields
tun_field-mem = item_at-mem no_field tun_fields 2 refl

tun_field_other : (tun_field.path == "udp_timeout") ≡ false
tun_field_other = refl

abbrev listen_field : ProxyFieldSpec
listen_field = item_at no_field listen_fields 0

listen_field-mem : Memᴰ listen_field listen_fields
listen_field-mem = item_at-mem no_field listen_fields 0 refl

listen_field_other : (listen_field.path == "udp_timeout") ≡ false
listen_field_other = refl

vless_is_other : (text_at "type" "" inbound == "tun") ≡ false
unfolding text_at to_string coalesce lookup
vless_is_other = refl

prune_agree_example :
    prune_invisible_fields {K = FieldKind} {R = FieldRef} ≡ prune_invisible_policy_fields
prune_agree_example = prune_invisible_fields-agree {K = FieldKind} {R = FieldRef}
