-- ===== src/Advanced/Endpoints.antt =====
-- ui/src/features/advanced/endpoints-form-model.ts: drafts and the change of an endpoint's type.
pub mod Fields
pub mod Change
pub mod Ready
use boxui.Base.{
  String, Bool, true, false, Option, none, some, List, [], ◌∷◌, ◌==◌, map, every, if◌then◌else◌,
}
use boxui.Json.{
  JsonValue, string, array, nil, JsonObject, empty, property, object, items, lookup, insert,
}
use boxui.Policy.FormModel.{is_json_object, child_of, prune_invisible_policy_fields}
use Fields.{endpoint_fields}

pub data EndpointType : Type 0 where
  wireguard tailscale : EndpointType

abbrev pub type_name : EndpointType → String
type_name EndpointType.wireguard = "wireguard"
type_name EndpointType.tailscale = "tailscale"

unfoldable pub is_endpoint_object : Option JsonValue → Bool
is_endpoint_object value = is_json_object value

-- `null` and `undefined` are no arrays.
unfoldable pub is_endpoints_structure_valid : Option JsonValue → Bool
unfolding is_json_object
is_endpoints_structure_valid (some (array vs)) = every (λ v. is_json_object (some v)) (items vs)
is_endpoints_structure_valid _ = false

-- The items of an array all of whose items are objects.
abbrev objects : JsonValue → List JsonObject
objects (array vs) = map (λ v. child_of (some v)) (items vs)
objects _ = []

unfoldable pub normalize_endpoints : Option JsonValue → List JsonObject
normalize_endpoints none = []
normalize_endpoints (some v) = if is_endpoints_structure_valid (some v) then objects v else []

unfoldable pub infer_endpoint_type : JsonObject → EndpointType
infer_endpoint_type item = elim (lookup "type" item) [
  | some (string s) ↦ if s == "tailscale" then EndpointType.tailscale else EndpointType.wireguard
  | _ ↦ EndpointType.wireguard
]

unfoldable pub create_endpoint_draft : EndpointType → JsonObject
create_endpoint_draft EndpointType.tailscale =
    property "type" (string "tailscale") (property "tag" (string "") empty)
create_endpoint_draft EndpointType.wireguard = property "type" (string "wireguard") (
    property "tag" (string "") (
      property "address" (array nil)
        (property "private_key" (string "") (property "peers" (array nil) empty))))

unfoldable pub prepare_endpoint_object : JsonObject → JsonObject
prepare_endpoint_object item = prune_invisible_policy_fields item endpoint_fields

-- `if (typeof item.tag === "string" && item.tag) base.tag = item.tag`
abbrev pub take_tag : Option JsonValue → JsonObject → JsonObject
take_tag (some (string s)) base = if s == "" then base else insert "tag" (string s) base
take_tag _ base = base

unfoldable pub change_endpoint_type : JsonObject → String → JsonObject
change_endpoint_type item type =
    let next_type =
      if type == "tailscale" then EndpointType.tailscale else EndpointType.wireguard in
    prepare_endpoint_object (take_tag (lookup "tag" item) (create_endpoint_draft next_type))

unfoldable pub prepare_endpoints : List JsonObject → List JsonObject
prepare_endpoints items = map prepare_endpoint_object items
