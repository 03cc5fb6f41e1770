-- ===== src/Advanced/Endpoints/Ready.antt =====
-- ui/src/features/advanced/endpoints-form-model.ts: isEndpointReady and summarizeEndpoint.
pub mod Detail
use boxui.Base.{
  ℕ, String, Bool, true, false, Option, none, some, List, [], ◌∷◌, ◌&&◌, not, any, length,
  if◌then◌else◌,
}
use boxui.Text.Trim.{trim, is_blank, join}
use boxui.Json.{JsonValue, string, array, JsonObject, items, lookup}
use boxui.Proxy.ListPage.{keep_texts}
use boxui.Advanced.Endpoints.{EndpointType, infer_endpoint_type}

-- `typeof value === "string" && Boolean(value.trim())`
abbrev pub has_text : JsonValue → Bool
has_text (string s) = not (is_blank (trim s))
has_text _ = false

abbrev pub holds_text : Option JsonValue → Bool
holds_text none = false
holds_text (some v) = has_text v

-- `hasAddress`
abbrev pub has_address : Option JsonValue → Bool
has_address (some (array vs)) = any has_text (items vs)
has_address value = holds_text value

unfoldable pub is_endpoint_ready : JsonObject → Bool
is_endpoint_ready item =
    if not (holds_text (lookup "tag" item)) then false else elim (infer_endpoint_type item) [
      | EndpointType.wireguard ↦
          has_address (lookup "address" item) && holds_text (lookup "private_key" item)
      | EndpointType.tailscale ↦ true
    ]

pub record EndpointSummary : Type 0 where
  pub type : EndpointType
  pub detail : Option String
  pub meta : ℕ

-- `text || undefined`
abbrev pub some_text : String → Option String
some_text s = if is_blank s then none else some s

abbrev pub text_or_blank : Option JsonValue → String
text_or_blank (some (string s)) = s
text_or_blank _ = ""

abbrev pub address_text : Option JsonValue → String
address_text (some (array vs)) = join ", " (keep_texts (items vs))
address_text value = text_or_blank value

abbrev pub peer_count : Option JsonValue → ℕ
peer_count (some (array vs)) = length (items vs)
peer_count _ = 0

-- `hostname || exitNode`
abbrev pub host_or_exit : String → String → String
host_or_exit hostname exit_node = if is_blank hostname then exit_node else hostname

-- The summary of an endpoint of a type.
abbrev pub summary_of : JsonObject → EndpointType → EndpointSummary
summary_of item EndpointType.wireguard = record {
  type = EndpointType.wireguard;
  detail = some_text (address_text (lookup "address" item));
  meta = peer_count (lookup "peers" item);
}
summary_of item EndpointType.tailscale = record {
  type = EndpointType.tailscale;
  detail = some_text (
      host_or_exit (text_or_blank (lookup "hostname" item))
        (text_or_blank (lookup "exit_node" item)));
  meta = 0;
}

unfoldable pub summarize_endpoint : JsonObject → EndpointSummary
unfolding infer_endpoint_type join keep_texts
summarize_endpoint item = summary_of item (infer_endpoint_type item)
