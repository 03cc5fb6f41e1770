-- ===== src/Api/Session.antt =====
-- ui/src/lib/session.ts. The browser's session storage is a record: whether it works at all, since
-- every call of it may throw, and the text under the key of the session. `JSON.parse`, and
-- `Date.parse` with `none` for NaN, are parameters, and so is the time.
pub mod Stored
use boxui.Base.{
  ℕ, String, Bool, true, false, Option, none, some, leb, ◌&&◌, ◌||◌, not, is_none, if◌then◌else◌,
}
use boxui.Text.Trim.{is_blank}
use boxui.Json.{JsonValue, string, object, JsonObject, empty, property, lookup}

pub record Session : Type 0 where
  pub token : String
  pub expires_at : String

pub record Storage : Type 0 where
  pub works : Bool
  pub item : Option String

abbrev pub text_of : Option JsonValue → Option String
text_of (some (string s)) = some s
text_of _ = none

-- A session where both are texts.
abbrev pub both_texts : Option String → Option String → Option Session
both_texts none expires_at = none
both_texts (some token) none = none
both_texts (some token) (some expires_at) = some (record { token = token; expires_at = expires_at })

-- `isSession`, with the session that the value then is
unfoldable pub as_session : JsonValue → Option Session
as_session (object o) = both_texts (text_of (lookup "token" o)) (text_of (lookup "expiresAt" o))
as_session _ = none

unfoldable pub remove_session : Storage → Storage
remove_session s = if s.works then record s { item = none } else s

-- What `get` returns, and the storage after it.
pub record Got : Type 0 where
  pub session : Option Session
  pub storage : Storage

module _ (parse : String → Option JsonValue) (date_parse : String → Option ℕ) (now : ℕ) where
  -- `Date.parse(session.expiresAt) <= Date.now()`, which is false for NaN
  abbrev pub is_past : Option ℕ → Bool
  is_past none = false
  is_past (some time) = leb time now

  abbrev pub keep_unexpired : Storage → Option Session → Got
  keep_unexpired s none = record { session = none; storage = remove_session s }
  keep_unexpired s (some session) =
      if is_past (date_parse session.expires_at)
      then record { session = none; storage = remove_session s }
      else record { session = some session; storage = s }

  -- A text that JSON.parse refuses is removed by the `catch`.
  abbrev pub read_parsed : Storage → Option JsonValue → Got
  read_parsed s none = record { session = none; storage = remove_session s }
  read_parsed s (some v) = keep_unexpired s (as_session v)

  abbrev pub read_item : Storage → Option String → Got
  read_item s none = record { session = none; storage = s }
  read_item s (some raw) =
      if is_blank raw then record { session = none; storage = s } else read_parsed s (parse raw)

  unfoldable pub get_session : Storage → Got
  unfolding as_session remove_session
  get_session s =
      if s.works then read_item s s.item else record { session = none; storage = remove_session s }

  unfoldable pub is_valid : Storage → Bool
  unfolding get_session
  is_valid s = not (is_none (get_session s).session)

unfoldable pub session_object : Session → JsonObject
session_object session =
    property "token" (string session.token) (property "expiresAt" (string session.expires_at) empty)

unfoldable pub set_session : (JsonObject → String) → Session → Storage → Storage
unfolding session_object
set_session stringify session s =
    if s.works then record s { item = some (stringify (session_object session)) } else s
