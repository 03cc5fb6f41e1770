-- ===== src/Tests/Stored.antt =====
-- A session, preferences, requests and a configuration at concrete texts.
use boxui.Base.{ℕ, String, true, Option, none, some, ◌==◌, ◌≡◌, refl, if◌then◌else◌}
use boxui.Text.Trim.{trim, is_white}
use boxui.Text.Digits.{digits_value}
use boxui.Text.Digits.RoundTrip.{digits_value-decimal}
use boxui.Json.{JsonValue, string, object, JsonObject, empty, property, lookup}
use boxui.Api.Session.{Session, Storage, get_session, set_session, session_object}
use boxui.Api.Session.Stored.{IsCheckedGot, get_session-IsCheckedGot, get_session-set_session}
use boxui.Api.Client.{Response, api_request}
use boxui.Api.Client.Outcomes.{
  TellsStatus, TellsUnauthorized, IsReadable, json, api_request-TellsStatus,
}
use boxui.Api.Auth.{AuthState, clear, request, logout, IsSignedOut, request-IsSignedOut}
use boxui.Api.Preferences.{Preferences, dark, en, warn, get_preferences, preferences_object}
use boxui.Api.Preferences.Read.{get_preferences-stored}
use boxui.Subscriptions.{UrlTestOverrides, initial_url_test_state, build_url_test_overrides}
use boxui.Subscriptions.Kept.{IsTidy, build-initial_url_test_state}

-- The session that is stored, as the one text that the parser knows.
abbrev a_session : Session
a_session = record { token = "t"; expires_at = "2099" }

abbrev session_json : JsonObject
session_json = property "token" (string "t") (property "expiresAt" (string "2099") empty)

abbrev parse : String → Option JsonValue
parse text = if text == "{}" then some (object session_json) else none

abbrev date_parse : String → Option ℕ
date_parse text = if text == "2099" then some 2099 else none

abbrev stored : Storage
stored = record { works = true; item = some "{}" }

session_checked-IsCheckedGot_example :
    IsCheckedGot parse date_parse 2026 stored (get_session parse date_parse 2026 stored)
session_checked-IsCheckedGot_example = get_session-IsCheckedGot parse date_parse 2026 stored

session_read : (get_session parse date_parse 2026 stored).session ≡ some a_session
unfolding get_session lookup
session_read = refl

session_expired : (get_session parse date_parse 2100 stored).storage.item ≡ none
unfolding get_session lookup
session_expired = refl

abbrev stringify : JsonObject → String
stringify o = "{}"

session_parses :
    parse (stringify (session_object a_session)) ≡ some (object (session_object a_session))
unfolding session_object
session_parses = refl

session_stored_example :
    (get_session parse date_parse 2026 (set_session stringify a_session stored)).session
    ≡ some a_session
session_stored_example =
    get_session-set_session parse date_parse 2026 stringify stored a_session session_parses refl
      refl refl

abbrev some_preferences : Preferences
some_preferences = record { theme = dark; language = en; minimum_log_level = warn }

abbrev parse_preferences : String → Option JsonValue
parse_preferences text = some (object (preferences_object some_preferences))

preferences_example :
    get_preferences parse_preferences (some (stringify (preferences_object some_preferences)))
    ≡ some_preferences
preferences_example = get_preferences-stored parse_preferences stringify some_preferences refl refl

-- An answer that refuses the session, and one whose body is no JSON.
abbrev refused : Response
refused = record { status = 401; status_text = "Unauthorized"; body = some "{}" }

request_status-TellsStatus_example :
    TellsStatus parse refused (api_request parse (some refused)).outcome
    × TellsUnauthorized parse refused (api_request parse (some refused))
request_status-TellsStatus_example = api_request-TellsStatus parse refused

abbrev logged_in : AuthState
logged_in = record { storage = stored; session = some a_session }

refused-IsReadable : IsReadable parse refused
refused-IsReadable = json "{}" (object session_json) refl refl

refused-IsSignedOut_example :
    IsSignedOut parse date_parse 2026 (request parse (some refused) logged_in).0
    × IsSignedOut parse date_parse 2026 (logout parse none logged_in)
refused-IsSignedOut_example =
    request-IsSignedOut parse date_parse 2026 refused logged_in none refl refused-IsReadable

-- The session goes.
request_logs_out : (request parse (some refused) logged_in).0 ≡ clear logged_in
unfolding request
request_logs_out = refl

abbrev hidden : Response
hidden = record { status = 401; status_text = "Unauthorized"; body = some "<html>" }

-- A 401 with a page for its body leaves the session.
hidden_refusal : (request parse (some hidden) logged_in).0 ≡ logged_in
unfolding request
hidden_refusal = refl

-- A URL test with a URL and a tolerance.
abbrev to_number : String → ℕ
to_number text = digits_value 10 0 text

abbrev overrides : UrlTestOverrides
overrides = record {
  enabled = some true;
  url = some "https://a.example";
  interval = none;
  tolerance = some 50;
}

url-IsTidy : IsTidy overrides.url
unfolding IsTidy trim is_white
url-IsTidy = (refl, refl)

interval-IsTidy : IsTidy overrides.interval
unfolding IsTidy
interval-IsTidy = tt

overrides_example :
    build_url_test_overrides to_number (initial_url_test_state (some overrides)) ≡ some overrides
overrides_example =
    build-initial_url_test_state to_number overrides digits_value-decimal refl url-IsTidy
      interval-IsTidy
