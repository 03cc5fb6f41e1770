-- ===== src/Policy/Dialog.antt =====
-- ui/src/features/policy/policy-dialog-state.ts: the state of an editor dialog, which holds an object
-- both as fields and as JSON text. `JSON.parse` and `JSON.stringify` are parameters; `parse` is
-- `none` where JSON.parse throws. The field transform is a parameter too, with `undefined`, `null`
-- and an object as its results.
pub mod Reach
pub mod Required
pub mod Sections
use boxui.Base.{
  ℕ, suc, String, Bool, true, false, Option, none, some, List, [], ◌∷◌, ◌++◌, ◌==◌, add_new, keep,
  not, if◌then◌else◌,
}
use boxui.Json.{JsonValue, object, JsonObject}

-- The state of the hook's `useState` calls.
pub record DialogState : Type 0 where
  pub value : String
  pub edited : JsonObject
  pub json_valid : Bool
  pub editor_revision : ℕ
  pub revision : ℕ
  pub invalid_fields : List String

-- `undefined`, `null` or an object
pub data TransformResult : Type 0 where
  undefined rejected : TransformResult
  transformed : JsonObject → TransformResult

-- `updateJSON` after `setValue(next)`, for the object that the text parses to.
unfoldable pub accept_text : DialogState → String → Option JsonObject → DialogState
accept_text s text none = record s { value = text; json_valid = false }
accept_text s text (some parsed) = record s {
  value = text;
  edited = parsed;
  json_valid = true;
  revision = suc s.revision;
  invalid_fields = [];
}

module _ (parse : String → Option JsonValue) (stringify : JsonObject → String) where
  unfoldable pub parse_object : String → Option JsonObject
  parse_object text = elim (parse text) [ some (object o) ↦ some o | _ ↦ none ]

  unfoldable pub open_dialog : JsonObject → DialogState
  open_dialog item = record {
    value = stringify item;
    edited = item;
    json_valid = true;
    editor_revision = 0;
    revision = 0;
    invalid_fields = [];
  }

  unfoldable pub update : DialogState → JsonObject → DialogState
  update s next = record s {
    value = stringify next;
    edited = next;
    json_valid = true;
    editor_revision = suc s.editor_revision;
  }

  unfoldable pub update_json : DialogState → String → DialogState
  unfolding accept_text
  update_json s next = accept_text s next (parse_object next)

-- `next.delete(path)` and `next.add(path)`
unfoldable pub update_validity : DialogState → String → Bool → DialogState
unfolding add_new
update_validity s path valid = record s {
  invalid_fields =
      if valid then keep (λ p. not (p == path)) s.invalid_fields else add_new s.invalid_fields path;
}

-- What `transform` does to the state, for the result of the form's transform.
unfoldable pub transform : DialogState → String → TransformResult → DialogState
transform s path TransformResult.undefined = s
transform s path TransformResult.rejected = update_validity s path false
transform s path (TransformResult.transformed next) = update_validity s path true
