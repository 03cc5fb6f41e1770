-- ===== src/Proxy/Inbound/Change.antt =====
-- ui/src/features/proxy/inbound-form-model.ts: changing the type and the transport of an inbound,
-- the fields that the dialog manages and the fields of a user.
pub mod Steps
pub mod Effect
pub mod Sections
use boxui.Base.{
  String, Bool, true, false, not, List, [], ◌∷◌, ◌++◌, ◌||◌, ◌&&◌, ◌==◌, includes, any, keep,
  reduce, or_else, none, some, Option, if◌then◌else◌,
}
use boxui.Json.{JsonValue, string, JsonObject, lookup, insert}
use boxui.Json.Print.{to_string, coalesce}
use boxui.Form.{FieldTable, table_get}
use boxui.Policy.Route.Change.{text_at, non_empty}
use boxui.Proxy.Kinds.{FieldKind as Kind, FieldRef as Ref, ProxyFieldSpec, same_kind}
use boxui.Proxy.FormModel.{get_path, set_path, prune_invisible_fields}
use boxui.Proxy.Inbound.Fields.{listen_fields, protocol_map, tun_fields}
use boxui.Proxy.Inbound.Sections.{
  tls_fields, transport_fields, transport_by_type, multiplex_fields, tls_types, transport_types,
  multiplex_types,
}

unfoldable pub protocol_fields : String → List ProxyFieldSpec
unfolding table_get
protocol_fields type = or_else (table_get protocol_map type) []

unfoldable pub transport_type_fields : String → List ProxyFieldSpec
unfolding table_get
transport_type_fields type = transport_fields ++ or_else (table_get transport_by_type type) []

unfoldable pub remove_fields : JsonObject → List ProxyFieldSpec → JsonObject
unfolding reduce
remove_fields o fields = reduce (λ next f. set_path next f.path none) o fields

-- `candidates.some((candidate) => candidate.path === field.path && candidate.kind === field.kind)`
unfoldable pub has_field : List ProxyFieldSpec → ProxyFieldSpec → Bool
unfolding same_kind
has_field candidates f = any (λ c. (c.path == f.path) && same_kind c.kind f.kind) candidates

unfoldable pub change_transport_type : JsonObject → String → JsonObject
unfolding table_get
change_transport_type o type =
    let previous = to_string (coalesce (get_path o "transport.type") (string "")) in
    set_path
      (remove_fields o (
        keep (λ f. not (has_field (or_else (table_get transport_by_type type) []) f))
          (or_else (table_get transport_by_type previous) [])))
      "transport.type" (non_empty type)

-- The fields of a table that go with the type `tun` or come with it; `udp_timeout` is in both.
abbrev pub but_udp_timeout : List ProxyFieldSpec → List ProxyFieldSpec
but_udp_timeout fields = keep (λ f. not (f.path == "udp_timeout")) fields

-- The statements of `changeInboundType` between the copy and the new type, in their order.
unfoldable pub leave_tun : String → String → JsonObject → JsonObject
leave_tun previous type next =
    if (previous == "tun") && not (type == "tun")
    then remove_fields next (but_udp_timeout tun_fields)
    else next

unfoldable pub enter_tun : String → String → JsonObject → JsonObject
enter_tun previous type next =
    if not (previous == "tun") && (type == "tun")
    then remove_fields next (but_udp_timeout listen_fields)
    else next

-- The fields of the old type that the new type does not have, and the users in any case.
unfoldable pub dropped_fields : String → String → List ProxyFieldSpec
dropped_fields previous type =
    keep (λ f. (f.path == "users") || not (has_field (protocol_fields type) f))
      (protocol_fields previous)

unfoldable pub drop_section : List String → String → String → String → JsonObject → JsonObject
drop_section types path previous type next =
    if includes types previous && not (includes types type) then set_path next path none else next

unfoldable pub strip_inbound : String → String → JsonObject → JsonObject
strip_inbound previous type next =
    let bare =
      remove_fields (enter_tun previous type (leave_tun previous type next))
        (dropped_fields previous type) in
    drop_section multiplex_types "multiplex" previous type (
      drop_section transport_types "transport" previous type
        (drop_section tls_types "tls" previous type bare))

unfoldable pub change_inbound_type : JsonObject → String → JsonObject
change_inbound_type o type =
    if text_at "type" "" o == type
    then o
    else insert "type" (string type) (strip_inbound (text_at "type" "" o) type o)

unfoldable pub managed_inbound_fields : String → String → List ProxyFieldSpec
managed_inbound_fields type transport_type =
    listen_fields
    ++ protocol_fields type
    ++ tun_fields
    ++ (if includes tls_types type then tls_fields else [])
    ++ (if includes transport_types type then transport_type_fields transport_type else [])
    ++ (if includes multiplex_types type then multiplex_fields else [])

unfoldable pub apply_inbound_field_change : JsonObject → JsonObject → String → JsonObject
apply_inbound_field_change o next type_hint =
    let type =
      to_string (coalesce (lookup "type" next) (coalesce (lookup "type" o) (string type_hint))) in
    let transport_type = to_string (
      coalesce (get_path next "transport.type")
        (coalesce (get_path o "transport.type") (string ""))) in
    prune_invisible_fields next (managed_inbound_fields type transport_type)

pub data UserFieldKey : Type 0 where
  name username password uuid flow alter_id : UserFieldKey

unfoldable pub user_schema : String → List UserFieldKey
user_schema type =
    if includes ("mixed" ∷ "socks" ∷ "http" ∷ "naive" ∷ "anytls" ∷ []) type
    then UserFieldKey.username ∷ UserFieldKey.password ∷ []
    else if includes ("shadowsocks" ∷ "trojan" ∷ "shadowtls" ∷ []) type
    then UserFieldKey.name ∷ UserFieldKey.password ∷ []
    else if type == "vmess"
    then UserFieldKey.name ∷ UserFieldKey.uuid ∷ UserFieldKey.alter_id ∷ []
    else if type == "vless"
    then UserFieldKey.name ∷ UserFieldKey.uuid ∷ UserFieldKey.flow ∷ []
    else if includes ("hysteria" ∷ "hysteria2" ∷ []) type
    then UserFieldKey.name ∷ UserFieldKey.password ∷ []
    else if type == "tuic"
    then UserFieldKey.name ∷ UserFieldKey.uuid ∷ UserFieldKey.password ∷ []
    else UserFieldKey.name ∷ UserFieldKey.password ∷ []
