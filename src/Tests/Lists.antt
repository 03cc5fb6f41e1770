-- ===== src/Tests/Lists.antt =====
-- The lists, groups and tags of the forms, and the draft of an endpoint.
use boxui.Base.{String, none, some, List, [], ◌∷◌, ◌≡◌, refl, All, ◌==◌, if◌then◌else◌}
use boxui.Json.{string, object, array, JsonArray, nil, cons, JsonObject, empty, property, lookup}
use boxui.Form.{field}
use boxui.Policy.Kinds.{PolicyFieldSpec}
use boxui.Policy.FormModel.Tags.{is_current, policy_config_tags}
use boxui.Policy.FormModel.Tags.Offered.{HasNoRepeat, IsOffered, policy_config_tags_lem}
use boxui.Policy.Editor.Items.{remove_at}
use boxui.Proxy.ListPage.{objects, save_item, delete_item}
use boxui.Proxy.ListPage.Saved.{placed, objects-save_item}
use boxui.Advanced.Endpoints.{EndpointType, create_endpoint_draft, take_tag, change_endpoint_type}
use boxui.Advanced.Endpoints.Change.{change_endpoint_type-draft}

abbrev some_fields : List PolicyFieldSpec
some_fields =
    field "final" "final" none (some "basic")
    ∷ field "strategy" "strategy" none (some "basic")
    ∷ field "disable_cache" "disableCache" none (some "cache")
    ∷ field "note" "note" none none
    ∷ []

abbrev tagged : String → JsonObject
tagged tag = property "tag" (string tag) empty

abbrev servers : JsonArray
servers =
    cons (object (tagged "one"))
      (cons (string "two") (cons (object (tagged "two")) (cons (object (tagged "one")) nil)))

tags_example :
    HasNoRepeat (policy_config_tags (some (array servers)) (some "two"))
    × All (IsOffered (some "two")) (policy_config_tags (some (array servers)) (some "two"))
tags_example = policy_config_tags_lem (some (array servers)) (some "two")

has_tag : lookup "tag" (tagged "one") ≡ some (string "one")
unfolding lookup
has_tag = refl

one-IsOffered : IsOffered (some "two") "one"
unfolding is_current
one-IsOffered = (refl, refl)

abbrev section : JsonObject
section = property "rules" (string "broken") (property "rule_set" (array servers) empty)

-- One inbound and a value that is no object.
abbrev inbounds_config : JsonObject
inbounds_config =
    property "inbounds" (array (cons (object (tagged "a")) (cons (string "b") nil)))
      (property "log" (object empty) empty)

inbounds_example :
    (objects (lookup "inbounds" (save_item inbounds_config "inbounds" (some 3) (tagged "c")))
      ≡ placed (objects (lookup "inbounds" inbounds_config)) (some 3) (tagged "c"))
    × (objects (lookup "inbounds" (delete_item inbounds_config "inbounds" 0))
        ≡ remove_at (objects (lookup "inbounds" inbounds_config)) 0)
    × (lookup "log" (save_item inbounds_config "inbounds" (some 3) (tagged "c"))
        ≡ lookup "log" inbounds_config)
    × (lookup "log" (delete_item inbounds_config "inbounds" 0) ≡ lookup "log" inbounds_config)
inbounds_example = objects-save_item inbounds_config "inbounds" (some 3) 0 (tagged "c") "log" refl

endpoint_example :
    change_endpoint_type (tagged "home") "tailscale"
    ≡ take_tag (lookup "tag" (tagged "home")) (
        create_endpoint_draft
          (if "tailscale" == "tailscale" then EndpointType.tailscale else EndpointType.wireguard))
endpoint_example = change_endpoint_type-draft (tagged "home") "tailscale"
