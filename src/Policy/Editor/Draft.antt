-- ===== src/Policy/Editor/Draft.antt =====
-- ui/src/features/policy/policy-form-fields.tsx: useStructuredDraft, the text of a field that holds an
-- object or an array. `JSON.parse` and `JSON.stringify` are parameters; `render` is what the hook does
-- before it returns, for the revision and the value of its properties.
pub mod Typed
use Prim.Native.String
use boxui.Base.{ℕ, String, Bool, true, false, Option, none, some, ◌==◌, not, if◌then◌else◌}
use boxui.Text.{decimal}
use boxui.Text.Trim.{trim, is_blank}
use boxui.Json.{JsonValue, array, object}

pub record Draft : Type 0 where
  pub raw : String
  pub source : String
  pub invalid : Bool

-- What `update` leads to: the draft, the validity that it reports, and the call of onChange.
pub record Typing : Type 0 where
  pub draft : Draft
  pub reported : Bool
  pub change : Option (Option JsonValue)

abbrev pub is_array : JsonValue → Bool
is_array (array vs) = true
is_array _ = false

abbrev pub is_object : JsonValue → Bool
is_object (object o) = true
is_object _ = false

-- `array ? Array.isArray(parsed) : …`
abbrev pub is_structured : Bool → JsonValue → Bool
is_structured wants_array v = if wants_array then is_array v else is_object v

module _ (parse : String → Option JsonValue) (stringify : JsonValue → String) where
  abbrev pub serialized : Option JsonValue → String
  serialized none = ""
  serialized (some v) = stringify v

  unfoldable pub source_key : ℕ → Option JsonValue → String
  source_key revision value = String.◌++◌ (decimal revision) (String.◌++◌ ":" (serialized value))

  -- `useState(serialized)` and the rest
  unfoldable pub start : ℕ → Option JsonValue → Draft
  unfolding source_key
  start revision value = record {
    raw = serialized value;
    source = source_key revision value;
    invalid = false;
  }

  -- `if (source !== sourceKey) { … }`
  unfoldable pub render : ℕ → Option JsonValue → Draft → Draft
  unfolding start
  render revision value d =
      if d.source == source_key revision value then d else start revision value

  -- After `setRaw(next)`, for the value that the text parses to.
  abbrev pub type_parsed : ℕ → Bool → String → Draft → Option JsonValue → Typing
  type_parsed revision wants_array next d none = record {
    draft = record d { raw = next; invalid = true };
    reported = false;
    change = none;
  }
  type_parsed revision wants_array next d (some v) =
      if is_structured wants_array v
      then record {
        draft = record { raw = next; source = source_key revision (some v); invalid = false };
        reported = true;
        change = some (some v);
      }
      else record {
        draft = record d { raw = next; invalid = true };
        reported = false;
        change = none;
      }

  unfoldable pub type_text : ℕ → Bool → String → Draft → Typing
  unfolding source_key
  type_text revision wants_array next d =
      if is_blank (trim next)
      then record {
        draft = record { raw = next; source = source_key revision none; invalid = false };
        reported = true;
        change = some none;
      }
      else type_parsed revision wants_array next d (parse next)
