-- ===== src/Advanced/Endpoints/Change.antt =====
-- What `changeEndpointType` makes of an endpoint.
use boxui.Base.{
  String, Bool, true, false, Option, none, some, ◌≡◌, refl, ◌⊎◌, inl, inr, ◌||◌, ◌==◌, All-map_imp,
  every, every-All, is_none, Bool-cases, if◌then◌else◌, arith,
}
use boxui.Json.{JsonValue, string, JsonObject, lookup, insert}
use boxui.Policy.Kinds.{PolicyFieldSpec}
use boxui.Text.{split_dots}
use boxui.Policy.FormModel.{
  get_step, get_keys, get_policy_path, matches_when, is_policy_field_visible,
}
use boxui.Policy.FormModel.Prune.{IsSettled, prune-settled}
use boxui.Advanced.Endpoints.{
  EndpointType, create_endpoint_draft, prepare_endpoint_object, take_tag, change_endpoint_type,
}
use boxui.Advanced.Endpoints.Fields.{endpoint_fields}

-- The form shows the field, or the object has no value for it.
abbrev is_settled : JsonObject → PolicyFieldSpec → Bool
is_settled o f = is_policy_field_visible o f || is_none (get_policy_path o f.path)

or-true : (a b : Bool) → (a || b) ≡ true → (a ≡ true) ⊎ (b ≡ true)
or-true true b h = inl refl
or-true false b h = inr h

none-is_none : (v : Option JsonValue) → is_none v ≡ true → v ≡ none
none-is_none none h = refl
none-is_none (some v) h = ground arith

settled-prepare :
    (o : JsonObject) → every (is_settled o) endpoint_fields ≡ true → prepare_endpoint_object o ≡ o
unfolding prepare_endpoint_object
settled-prepare o h = prune-settled o endpoint_fields (
    All-map_imp (λ f. is_settled o f ≡ true) (IsSettled o)
      (λ f test.
        elim (or-true (is_policy_field_visible o f) (is_none (get_policy_path o f.path)) test) [
          | inl shown ↦ inl shown
          | inr absent ↦ inr (none-is_none (get_policy_path o f.path) absent)
        ])
      endpoint_fields (every-All (is_settled o) endpoint_fields h))

wireguard_tag :
    (s : String)
    → every
        (is_settled (insert "tag" (string s) (create_endpoint_draft EndpointType.wireguard)))
        endpoint_fields
      ≡ true
unfolding is_policy_field_visible get_policy_path create_endpoint_draft insert matches_when get_keys
    split_dots get_step lookup
wireguard_tag s = refl

wireguard_draft :
    every (is_settled (create_endpoint_draft EndpointType.wireguard)) endpoint_fields ≡ true
unfolding is_policy_field_visible get_policy_path create_endpoint_draft insert matches_when get_keys
    split_dots get_step lookup
wireguard_draft = refl

tailscale_tag :
    (s : String)
    → every
        (is_settled (insert "tag" (string s) (create_endpoint_draft EndpointType.tailscale)))
        endpoint_fields
      ≡ true
unfolding is_policy_field_visible get_policy_path create_endpoint_draft insert matches_when get_keys
    split_dots get_step lookup
tailscale_tag s = refl

tailscale_draft :
    every (is_settled (create_endpoint_draft EndpointType.tailscale)) endpoint_fields ≡ true
unfolding is_policy_field_visible get_policy_path create_endpoint_draft insert matches_when get_keys
    split_dots get_step lookup
tailscale_draft = refl

draft-IsSettled :
    (type : EndpointType) → every (is_settled (create_endpoint_draft type)) endpoint_fields ≡ true
draft-IsSettled EndpointType.wireguard = wireguard_draft
draft-IsSettled EndpointType.tailscale = tailscale_draft

tagged-IsSettled :
    (type : EndpointType) (s : String)
    → every (is_settled (insert "tag" (string s) (create_endpoint_draft type))) endpoint_fields
      ≡ true
tagged-IsSettled EndpointType.wireguard s = wireguard_tag s
tagged-IsSettled EndpointType.tailscale s = tailscale_tag s

prepare-take_tag :
    (type : EndpointType) (tag : Option JsonValue)
    → prepare_endpoint_object (take_tag tag (create_endpoint_draft type))
      ≡ take_tag tag (create_endpoint_draft type)
prepare-take_tag type (some (string s)) = elim (Bool-cases (s == "")) [
  | inl bare ↦ rw bare (settled-prepare (create_endpoint_draft type) (draft-IsSettled type))
  | inr tagged ↦ rw tagged (
      settled-prepare (insert "tag" (string s) (create_endpoint_draft type))
        (tagged-IsSettled type s))
]
prepare-take_tag type none = settled-prepare (create_endpoint_draft type) (draft-IsSettled type)
prepare-take_tag type (some _) = settled-prepare (create_endpoint_draft type) (draft-IsSettled type)

-- A change of type starts over: the result is the draft of the new type, with the tag of the
-- endpoint where that is a text with a character, and pruning takes nothing from it. Every name but
-- "tailscale" counts as "wireguard".
pub change_endpoint_type-draft :
    (item : JsonObject) (type : String)
    → change_endpoint_type item type
      ≡ take_tag (lookup "tag" item) (
          create_endpoint_draft
            (if type == "tailscale" then EndpointType.tailscale else EndpointType.wireguard))
unfolding change_endpoint_type
change_endpoint_type-draft item type =
    prepare-take_tag
      (if type == "tailscale" then EndpointType.tailscale else EndpointType.wireguard)
      (lookup "tag" item)
