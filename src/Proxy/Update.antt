-- ===== src/Proxy/Update.antt =====
-- ui/src/features/proxy/proxy-form-fields.tsx: defaultUpdate, and parseList, which is that of
-- ui/src/features/policy/policy-field-update.ts. `Number` on a text is the parameter `to_number`; a
-- number that is not finite, NaN too, is one of the `infinite` ones.
pub mod Agreement
use mathlib.Core.Option
use boxui.Base.{
  String, Bool, true, false, Option, none, some, List, [], ◌∷◌, ◌==◌, map, every, if◌then◌else◌,
}
use boxui.Text.Trim.{is_blank}
use boxui.Json.{
  JsonValue, Number, natural, other_finite, infinite, string, number, array, from_items, JsonObject,
}
use boxui.Proxy.Kinds.{FieldKind, ProxyFieldSpec}
use boxui.Proxy.FormModel.{set_path}
use boxui.Policy.Number.Forms.{parse_list, strings}

-- `Number.isFinite`
abbrev pub is_finite : Number → Bool
is_finite (natural n) = true
is_finite (other_finite s) = true
is_finite (infinite s) = false

module _ (to_number : String → Number) where
  -- `numbers.every(Number.isFinite) ? setPath(object, path, numbers) : null`
  abbrev pub set_finite : JsonObject → String → List Number → Option JsonObject
  set_finite o path ns =
      if every is_finite ns
      then some (set_path o path (some (array (from_items (map number ns)))))
      else none

  abbrev pub update_list : JsonObject → String → Option (List String) → Option JsonObject
  update_list o path none = some (set_path o path none)
  update_list o path (some values) = set_finite o path (map to_number values)

  -- The update of a field of a kind, `none` where the source returns null.
  unfoldable pub update_proxy_kind :
      Option FieldKind → JsonObject → String → String → Option JsonObject
  unfolding parse_list
  update_proxy_kind (some FieldKind.list) o path raw =
      some (set_path o path (Option.map strings (parse_list raw)))
  update_proxy_kind (some FieldKind.number_list) o path raw = update_list o path (parse_list raw)
  update_proxy_kind (some FieldKind.number) o path raw =
      some (set_path o path (if raw == "" then none else some (number (to_number raw))))
  update_proxy_kind _ o path raw =
      some (set_path o path (if is_blank raw then none else some (string raw)))

  unfoldable pub default_update : JsonObject → ProxyFieldSpec → String → Option JsonObject
  unfolding update_proxy_kind
  default_update o f raw = update_proxy_kind f.kind o f.path raw
