-- ===== src/Api/Preferences.antt =====
-- ui/src/lib/storage.ts and ui/src/features/observability/log-level.ts. The browser's local storage
-- is the text under the key of the preferences, or `none` for a storage that throws. `JSON.parse` and
-- `toLowerCase` are parameters.
pub mod Read
use boxui.Base.{
  ℕ, String, Bool, true, false, Option, none, some, List, [], ◌∷◌, ◌==◌, leb, if◌then◌else◌,
}
use boxui.Text.Trim.{is_blank}
use boxui.Json.{JsonValue, null, string, object, JsonObject, empty, property, lookup}

pub data LogThreshold : Type 0 where
  all debug info warn error : LogThreshold

pub data Theme : Type 0 where
  light dark system : Theme

pub data Language : Type 0 where
  zh en : Language

pub record Preferences : Type 0 where
  pub theme : Theme
  pub language : Language
  pub minimum_log_level : LogThreshold

abbrev pub defaults : Preferences
defaults = record { theme = system; language = zh; minimum_log_level = all }

-- `levelRanks[level]`, undefined for other texts; the names that an object inherits compare as NaN.
abbrev pub rank_of : String → Option ℕ
rank_of level =
    if level == "debug"
    then some 0
    else if level == "info"
    then some 1
    else if level == "warn"
    then some 2
    else if level == "error"
    then some 3
    else none

abbrev pub threshold_rank : LogThreshold → ℕ
threshold_rank all = 0
threshold_rank debug = 0
threshold_rank info = 1
threshold_rank warn = 2
threshold_rank error = 3

abbrev pub rank_reaches : Option ℕ → ℕ → Bool
rank_reaches none least = false
rank_reaches (some rank) least = leb least rank

abbrev pub is_all : LogThreshold → Bool
is_all all = true
is_all debug = false
is_all info = false
is_all warn = false
is_all error = false

unfoldable pub meets_log_threshold : (String → String) → String → LogThreshold → Bool
meets_log_threshold to_lower level threshold =
    if is_all threshold
    then true
    else rank_reaches (rank_of (to_lower level)) (threshold_rank threshold)

-- The texts of the values.
abbrev pub threshold_text : LogThreshold → String
threshold_text all = "all"
threshold_text debug = "debug"
threshold_text info = "info"
threshold_text warn = "warn"
threshold_text error = "error"

abbrev pub theme_text : Theme → String
theme_text light = "light"
theme_text dark = "dark"
theme_text system = "system"

abbrev pub language_text : Language → String
language_text zh = "zh"
language_text en = "en"

-- `isLogThreshold(value) ? value : …`
unfoldable pub read_threshold : Option JsonValue → Option LogThreshold
read_threshold (some (string s)) =
    if s == "all"
    then some all
    else if s == "debug"
    then some debug
    else if s == "info"
    then some info
    else if s == "warn"
    then some warn
    else if s == "error"
    then some error
    else none
read_threshold _ = none

-- `["light", "dark", "system"].includes(item.theme ?? "")`
unfoldable pub read_theme : Option JsonValue → Option Theme
read_theme (some (string s)) =
    if s == "light"
    then some light
    else if s == "dark"
    then some dark
    else if s == "system"
    then some system
    else none
read_theme _ = none

unfoldable pub read_language : Option JsonValue → Option Language
read_language (some (string s)) = if s == "zh" then some zh else if s == "en" then some en else none
read_language _ = none

abbrev pub or_all : Option LogThreshold → LogThreshold
or_all none = all
or_all (some threshold) = threshold

abbrev pub with_values : Option Theme → Option Language → Option LogThreshold → Option Preferences
with_values none language threshold = none
with_values (some theme) none threshold = none
with_values (some theme) (some language) threshold =
    some (record { theme = theme; language = language; minimum_log_level = or_all threshold })

-- An array is an object without these properties.
unfoldable pub normalize_preferences : JsonValue → Option Preferences
unfolding read_threshold read_theme read_language
normalize_preferences (object o) =
    with_values (read_theme (lookup "theme" o)) (read_language (lookup "language" o))
      (read_threshold (lookup "minimumLogLevel" o))
normalize_preferences _ = none

abbrev pub or_defaults : Option Preferences → Preferences
or_defaults none = defaults
or_defaults (some preferences) = preferences

module _ (parse : String → Option JsonValue) where
  abbrev pub read_preferences : Option JsonValue → Preferences
  read_preferences none = defaults
  read_preferences (some v) = or_defaults (normalize_preferences v)

  -- What `getItem` gives.
  unfoldable pub get_preferences : Option String → Preferences
  unfolding normalize_preferences
  get_preferences none = defaults
  get_preferences (some raw) = if is_blank raw then defaults else read_preferences (parse raw)

unfoldable pub preferences_object : Preferences → JsonObject
preferences_object p = property "theme" (string (theme_text p.theme)) (
    property "language" (string (language_text p.language))
      (property "minimumLogLevel" (string (threshold_text p.minimum_log_level)) empty))
