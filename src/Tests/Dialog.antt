-- ===== src/Tests/Dialog.antt =====
-- A dialog that is opened, refuses a field and is given a text that is no object.
use boxui.Base.{String, Option, none, some, ◌==◌, if◌then◌else◌}
use boxui.Json.{JsonValue, object, string, JsonObject, empty}
use boxui.Policy.Dialog.{DialogState, TransformResult, open_dialog, update_json, transform}
use boxui.Policy.Dialog.Reach.{
  IsReachable, opened, text_edited, field_transformed, IsSynced, reachable-IsSynced,
}

-- A parser and a printer that know two texts.
abbrev parse : String → Option JsonValue
parse text =
    if text == "{}" then some (object empty) else if text == "1" then some (string "1") else none

abbrev stringify : JsonObject → String
stringify o = "{}"

abbrev refused : DialogState
refused = transform (open_dialog parse stringify empty) "mtu" TransformResult.rejected

abbrev broken : DialogState
broken = update_json parse stringify refused "1"

broken-IsReachable : IsReachable parse stringify empty broken
broken-IsReachable =
    text_edited refused "1"
      (field_transformed (open_dialog parse stringify empty) "mtu" TransformResult.rejected opened)

dialog-IsSynced_example : IsSynced parse stringify broken
dialog-IsSynced_example = reachable-IsSynced parse stringify empty broken broken-IsReachable
