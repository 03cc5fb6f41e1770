-- ===== src/Proxy/FormModel/Lists.antt =====
-- ui/src/features/proxy/proxy-form-model.ts: the groups of a form's fields by their sections, and the
-- tags that a form offers, as in the policy form model.
use boxui.Base.{String, Option, none, some, List, [], distinct, reduce}
use boxui.Json.{JsonValue, array, object, lookup}
use boxui.Form.{FieldSpec}
use boxui.Policy.FormModel.Groups.{FieldGroup, push_field}
use boxui.Policy.FormModel.Tags.{tags_of_items}

unfoldable pub group_fields_by_section :
    {K R : Type 0} → List (FieldSpec K R) → List (FieldGroup K R)
unfolding reduce push_field
group_fields_by_section fields = reduce push_field [] fields

unfoldable pub config_tags : Option JsonValue → Option String → List String
unfolding distinct tags_of_items
config_tags (some (array vs)) current = distinct (tags_of_items current vs)
config_tags _ current = []

unfoldable pub dns_server_tags : Option JsonValue → List String
unfolding config_tags
dns_server_tags (some (object o)) = config_tags (lookup "servers" o) none
dns_server_tags _ = []
