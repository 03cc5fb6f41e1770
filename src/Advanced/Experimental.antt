-- ===== src/Advanced/Experimental.antt =====
-- ui/src/features/advanced/experimental-form-model.ts.
use boxui.Base.{Bool, true, Option, none, some, List, [], ◌∷◌, ◌++◌}
use boxui.Json.{JsonValue, JsonObject, boolean}
use boxui.Form.{FieldWhen, field, with_options, with_ref, with_when, when_is}
use boxui.Policy.FormModel.{is_json_object, child_of, prune_invisible_policy_fields}
use boxui.Policy.Kinds.{PolicyFieldKind as Kind, PolicyFieldRef as Ref, PolicyFieldSpec}

abbrev pub cache_on : FieldWhen
cache_on = when_is "cache_file.enabled" (boolean true ∷ [])

abbrev pub rdrc_on : List FieldWhen
rdrc_on =
    when_is "cache_file.enabled" (boolean true ∷ [])
    ∷ when_is "cache_file.store_rdrc" (boolean true ∷ [])
    ∷ []

abbrev pub stats_on : FieldWhen
stats_on = when_is "v2ray_api.stats.enabled" (boolean true ∷ [])

abbrev pub experimental_cache_fields : List PolicyFieldSpec
experimental_cache_fields =
    field "cache_file.enabled" "cacheEnabled" (some Kind.boolean) none
    ∷ with_when (cache_on ∷ []) (field "cache_file.path" "cachePath" none none)
    ∷ with_when (cache_on ∷ []) (field "cache_file.cache_id" "cacheID" none none)
    ∷ with_when (cache_on ∷ [])
        (field "cache_file.store_fakeip" "storeFakeIP" (some Kind.boolean) none)
    ∷ with_when (cache_on ∷ []) (field "cache_file.store_rdrc" "storeRDRC" (some Kind.boolean) none)
    ∷ with_when rdrc_on (field "cache_file.rdrc_timeout" "rdrcTimeout" none none)
    ∷ []

abbrev pub experimental_clash_fields : List PolicyFieldSpec
experimental_clash_fields =
    field "clash_api.external_controller" "externalController" none none
    ∷ field "clash_api.external_ui" "externalUI" none none
    ∷ field "clash_api.external_ui_download_url" "externalUIDownloadURL" none none
    ∷ with_ref Ref.outbound (
        field "clash_api.external_ui_download_detour" "externalUIDownloadDetour" (some Kind.ref)
          none)
    ∷ field "clash_api.secret" "clashSecret" none none
    ∷ with_options ("rule" ∷ "global" ∷ "direct" ∷ [])
        (field "clash_api.default_mode" "defaultMode" (some Kind.select) none)
    ∷ field "clash_api.access_control_allow_origin" "accessControlAllowOrigin" (some Kind.list) none
    ∷ field "clash_api.access_control_allow_private_network" "accessControlAllowPrivateNetwork"
        (some Kind.boolean) none
    ∷ []

abbrev pub experimental_v2_ray_fields : List PolicyFieldSpec
experimental_v2_ray_fields =
    field "v2ray_api.listen" "v2rayListen" none none
    ∷ field "v2ray_api.stats.enabled" "statsEnabled" (some Kind.boolean) none
    ∷ with_when (stats_on ∷ []) (
        with_ref Ref.inbound
          (field "v2ray_api.stats.inbounds" "statsInbounds" (some Kind.ref_multi) none))
    ∷ with_when (stats_on ∷ []) (
        with_ref Ref.outbound
          (field "v2ray_api.stats.outbounds" "statsOutbounds" (some Kind.ref_multi) none))
    ∷ with_when (stats_on ∷ []) (field "v2ray_api.stats.users" "statsUsers" (some Kind.list) none)
    ∷ []

abbrev pub experimental_fields : List PolicyFieldSpec
experimental_fields =
    experimental_cache_fields ++ experimental_clash_fields ++ experimental_v2_ray_fields

unfoldable pub is_experimental_structure_valid : Option JsonValue → Bool
is_experimental_structure_valid value = is_json_object value

unfoldable pub normalize_experimental_object : Option JsonValue → JsonObject
normalize_experimental_object value = child_of value

unfoldable pub prepare_experimental_object : JsonObject → JsonObject
prepare_experimental_object o = prune_invisible_policy_fields o experimental_fields
