-- ===== src/Proxy/Outbound/Change.antt =====
-- ui/src/features/proxy/outbound-form-model.ts: changing the type and the transport of an outbound,
-- and the fields that the dialog manages.
pub mod Removals
pub mod Effect
pub mod Ownership
use boxui.Base.{
  String, Bool, true, false, not, Option, none, some, List, [], ◌∷◌, ◌++◌, ◌||◌, ◌==◌, map,
  includes, distinct, find, reduce, or_else, if◌then◌else◌,
}
use boxui.Json.{JsonValue, number, string, JsonObject, lookup, insert}
use boxui.Json.Print.{to_string, coalesce}
use boxui.Form.{FieldTable, table_get, table_values}
use boxui.Policy.FormModel.{is_json_object}
use boxui.Policy.Route.Transition.{is_string, is_boolean, is_array_of, is_primitive}
use boxui.Policy.Route.Change.{text_at, non_empty}
use boxui.Proxy.Kinds.{FieldKind as Kind, FieldRef as Ref, ProxyFieldSpec}
use boxui.Proxy.FormModel.{get_path, set_path, prune_invisible_fields}
use boxui.Proxy.Outbound.Fields.{
  server_types, dialer_types, outbound_tls_types, outbound_transport_types,
  outbound_multiplex_types, group_types, dialer_fields,
}
use boxui.Proxy.Outbound.Protocols.{protocol_map, group_map}
use boxui.Proxy.Outbound.Sections.{
  outbound_tls_fields, outbound_multiplex_fields, transport_base, transport_map, credential_paths,
  tls_credential_paths,
}

abbrev concat : List (List ProxyFieldSpec) → List ProxyFieldSpec
concat [] = []
concat (fields ∷ groups) = fields ++ concat groups

unfoldable pub known_protocol_fields : List ProxyFieldSpec
known_protocol_fields = concat (table_values protocol_map) ++ concat (table_values group_map)

unfoldable pub known_transport_fields : List ProxyFieldSpec
known_transport_fields = concat (table_values transport_map)

-- `table[type] ?? []`
abbrev fields_of : FieldTable Kind Ref → String → List ProxyFieldSpec
fields_of table type = or_else (table_get table type) []

unfoldable pub protocol_fields : String → List ProxyFieldSpec
unfolding table_get
protocol_fields type = fields_of protocol_map type

unfoldable pub group_fields : String → List ProxyFieldSpec
unfolding table_get
group_fields type = fields_of group_map type

unfoldable pub transport_type_fields : String → List ProxyFieldSpec
unfolding table_get
transport_type_fields type = transport_base ++ fields_of transport_map type

abbrev pub remove_path : JsonObject → String → JsonObject
remove_path next path = set_path next path none

abbrev pub field_paths : List ProxyFieldSpec → List String
field_paths [] = []
field_paths (f ∷ fields) = f.path ∷ field_paths fields

unfoldable pub remove_paths : JsonObject → List String → JsonObject
unfolding reduce
remove_paths o paths = reduce remove_path o paths

unfoldable pub remove_fields : JsonObject → List ProxyFieldSpec → JsonObject
unfolding reduce
remove_fields o fields = reduce (λ next f. set_path next f.path none) o fields

is_number : JsonValue → Bool
is_number (number n) = true
is_number _ = false

unfoldable pub matches_kind : JsonValue → Option Kind → Bool
unfolding is_number is_string is_boolean is_array_of is_primitive is_json_object
matches_kind v (some Kind.boolean) = is_boolean v
matches_kind v (some Kind.number) = is_number v
matches_kind v (some Kind.list) = is_string v || is_array_of is_string v
matches_kind v (some Kind.network_multi) = is_string v || is_array_of is_string v
matches_kind v (some Kind.number_list) = is_number v || is_array_of is_number v
matches_kind v (some Kind.json_object) = is_json_object (some v)
matches_kind v (some Kind.users) = is_array_of (λ item. is_json_object (some item)) v
matches_kind v _ = is_primitive v

unfoldable pub matches_field : Option JsonValue → ProxyFieldSpec → Bool
unfolding matches_kind
matches_field none f = true
matches_field (some v) f = matches_kind v f.kind

-- Whether `removeIncompatibleFields` leaves the value at a path alone.
unfoldable pub is_compatible : List ProxyFieldSpec → String → Option JsonValue → Bool
unfolding matches_field
is_compatible target path value = elim (find (λ f. f.path == path) target) [
  | none ↦ false
  | some f ↦ matches_field value f
]

unfoldable pub remove_incompatible_path : List ProxyFieldSpec → JsonObject → String → JsonObject
unfolding is_compatible
remove_incompatible_path target next path =
    if is_compatible target path (get_path next path) then next else set_path next path none

unfoldable pub remove_incompatible_fields :
    JsonObject → List ProxyFieldSpec → List ProxyFieldSpec → JsonObject
unfolding distinct remove_incompatible_path reduce
remove_incompatible_fields o known target =
    reduce (remove_incompatible_path target) o (distinct (field_paths known))

unfoldable pub change_outbound_transport_type : JsonObject → String → JsonObject
unfolding table_get
change_outbound_transport_type o type =
    set_path (remove_incompatible_fields o known_transport_fields (fields_of transport_map type))
      "transport.type" (non_empty type)

-- The statements of `changeOutboundType` between the copy and the new type, in their order.
unfoldable pub drop_server : String → JsonObject → JsonObject
drop_server type next =
    if includes server_types type
    then next
    else set_path (set_path next "server" none) "server_port" none

unfoldable pub drop_dialer : String → JsonObject → JsonObject
drop_dialer type next =
    if includes dialer_types type then next else remove_fields next dialer_fields

unfoldable pub drop_section : List String → String → String → JsonObject → JsonObject
drop_section types path type next = if includes types type then next else set_path next path none

unfoldable pub strip_outbound : String → JsonObject → JsonObject
strip_outbound type next =
    let typed =
      remove_incompatible_fields (drop_dialer type (drop_server type next)) known_protocol_fields
        (protocol_fields type ++ group_fields type) in
    let bare = remove_paths (remove_paths typed credential_paths) tls_credential_paths in
    drop_section outbound_multiplex_types "multiplex" type (
      drop_section outbound_transport_types "transport" type
        (drop_section outbound_tls_types "tls" type bare))

unfoldable pub change_outbound_type : JsonObject → String → JsonObject
change_outbound_type o type =
    if text_at "type" "" o == type then o else insert "type" (string type) (strip_outbound type o)

-- The fields that an edit in the dialog may hide.
unfoldable pub managed_outbound_fields : String → String → List ProxyFieldSpec
managed_outbound_fields type transport_type =
    (if includes dialer_types type then dialer_fields else [])
    ++ (if includes group_types type then group_fields type else protocol_fields type)
    ++ (if includes outbound_tls_types type then outbound_tls_fields else [])
    ++ (if includes outbound_transport_types type then transport_type_fields transport_type else [])
    ++ (if includes outbound_multiplex_types type then outbound_multiplex_fields else [])

unfoldable pub apply_outbound_field_change : JsonObject → JsonObject → String → JsonObject
apply_outbound_field_change o next type_hint =
    let type =
      to_string (coalesce (lookup "type" next) (coalesce (lookup "type" o) (string type_hint))) in
    let transport_type = to_string (
      coalesce (get_path next "transport.type")
        (coalesce (get_path o "transport.type") (string ""))) in
    prune_invisible_fields next (managed_outbound_fields type transport_type)
