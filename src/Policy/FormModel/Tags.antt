-- ===== src/Policy/FormModel/Tags.antt =====
-- ui/src/features/policy/policy-form-model.ts: the arrays that a section must hold, and the tags that
-- a form offers.
pub mod Offered
use boxui.Base.{
  String, Bool, true, false, not, Option, none, some, List, [], ◌∷◌, ◌++◌, ◌&&◌, ◌==◌, every,
  distinct, if◌then◌else◌,
}
use boxui.Json.{JsonValue, string, array, object, JsonArray, nil, cons, JsonObject, items, lookup}
use boxui.Policy.FormModel.{is_json_object}

pub data PolicySection : Type 0 where
  route dns : PolicySection

unfoldable pub is_non_empty_json_object_array : Option JsonValue → Bool
unfolding is_json_object
is_non_empty_json_object_array (some (array (cons v vs))) =
    every (λ item. is_json_object (some item)) (items (cons v vs))
is_non_empty_json_object_array _ = false

abbrev pub section_array_paths : PolicySection → List String
section_array_paths PolicySection.route = "rules" ∷ "rule_set" ∷ []
section_array_paths PolicySection.dns = "servers" ∷ "rules" ∷ []

-- `value === undefined || Array.isArray(value) && value.every(isJsonObject)`
unfoldable pub is_absent_or_objects : Option JsonValue → Bool
unfolding is_json_object
is_absent_or_objects none = true
is_absent_or_objects (some (array vs)) = every (λ item. is_json_object (some item)) (items vs)
is_absent_or_objects (some _) = false

unfoldable pub is_policy_section_structure_valid : PolicySection → JsonObject → Bool
unfolding is_absent_or_objects
is_policy_section_structure_valid section o =
    every (λ path. is_absent_or_objects (lookup path o)) (section_array_paths section)

-- `tag !== currentTag`
unfoldable pub is_current : Option String → String → Bool
is_current none tag = false
is_current (some current) tag = tag == current

-- `typeof tag === "string" && tag && tag !== currentTag ? [tag] : []`
unfoldable pub offered_tag : Option String → Option JsonValue → List String
unfolding is_current
offered_tag current (some (string tag)) =
    if not (tag == "") && not (is_current current tag) then tag ∷ [] else []
offered_tag current _ = []

-- The tag of an item, where it is one to offer.
unfoldable pub tag_of_item : Option String → JsonValue → List String
unfolding offered_tag
tag_of_item current (object o) = offered_tag current (lookup "tag" o)
tag_of_item current _ = []

unfoldable pub tags_of_items : Option String → JsonArray → List String
tags_of_items current nil = []
tags_of_items current (cons v vs) = tag_of_item current v ++ tags_of_items current vs

unfoldable pub policy_config_tags : Option JsonValue → Option String → List String
unfolding distinct
policy_config_tags (some (array vs)) current = distinct (tags_of_items current vs)
policy_config_tags _ current = []

unfoldable pub policy_dns_server_tags : Option JsonValue → List String
policy_dns_server_tags (some (object o)) = policy_config_tags (lookup "servers" o) none
policy_dns_server_tags _ = []

unfoldable pub policy_rule_set_tags : Option JsonValue → List String
policy_rule_set_tags (some (object o)) = policy_config_tags (lookup "rule_set" o) none
policy_rule_set_tags _ = []
