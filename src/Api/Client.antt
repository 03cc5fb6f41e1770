-- ===== src/Api/Client.antt =====
-- ui/src/lib/api/client.ts. A request's answer, or its failure, is what `fetch` gives, and the body is
-- `none` where `response.text()` rejects; `JSON.parse` is the parameter `parse`. A call of notifyUnauthorized is part of the outcome. A header's name counts
-- in lower case, which is the parameter `lower`.
pub mod Outcomes
use boxui.Base.{
  ℕ, String, Bool, true, false, Option, none, some, List, [], ◌∷◌, ◌++◌, ◌==◌, ◌&&◌, ◌||◌, not,
  is_none, nat_eq, leb, any, keep, if◌then◌else◌,
}
use Prim.Native.String
use boxui.Text.Trim.{is_blank}
use boxui.Json.{JsonValue, null, string, object, JsonObject, empty, property, lookup}
use boxui.Json.Print.{to_string}

pub record Response : Type 0 where
  pub status : ℕ
  pub status_text : String
  pub body : Option String

pub record ApiError : Type 0 where
  pub message : String
  pub status : ℕ
  pub code : JsonValue

-- `response.ok`
abbrev pub is_ok : ℕ → Bool
is_ok status = leb 200 status && leb status 299

-- `"key" in value`
abbrev pub has_key : String → JsonObject → Bool
has_key key o = not (is_none (lookup key o))

-- `isEnvelope(payload) ? payload : undefined`
unfoldable pub as_envelope : Option JsonValue → Option JsonObject
as_envelope (some (object o)) = if has_key "status" o && has_key "data" o then some o else none
as_envelope _ = none

abbrev pub is_text : Option JsonValue → Bool
is_text (some (string s)) = true
is_text _ = false

-- `errorBody(payload)`, whose code and message are texts
unfoldable pub error_body : Option JsonValue → Option JsonObject
error_body (some (object o)) =
    if is_text (lookup "code" o) && is_text (lookup "message" o) then some o else none
error_body _ = none

-- `body?.message ?? statusText`, as the text of an Error
abbrev pub message_or : Option JsonValue → String → String
message_or none other = other
message_or (some null) other = other
message_or (some v) other = to_string v

-- `body?.code`, where undefined gives the default
abbrev pub code_or_default : Option JsonValue → JsonValue
code_or_default none = string "request_failed"
code_or_default (some v) = v

abbrev pub properties : JsonValue → JsonObject
properties (object o) = o
properties _ = empty

abbrev pub error_of : Response → JsonObject → ApiError
error_of response body = record {
  message = message_or (lookup "message" body) response.status_text;
  status = response.status;
  code = code_or_default (lookup "code" body);
}

-- `envelope?.error ?? errorBody(payload)`
abbrev pub error_source : Option JsonValue → Option JsonObject → JsonObject
error_source none none = empty
error_source none (some body) = body
error_source (some null) none = empty
error_source (some null) (some body) = body
error_source (some v) body = properties v

abbrev pub envelope_error : Option JsonObject → Option JsonValue
envelope_error none = none
envelope_error (some envelope) = lookup "error" envelope

unfoldable pub response_error : Response → Option JsonValue → ApiError
unfolding as_envelope error_body
response_error response payload =
    error_of response (error_source (envelope_error (as_envelope payload)) (error_body payload))

-- What a request comes to: the value it returns, an ApiError, or an error of the network, which is that
-- of `fetch` or of `response.text()`.
pub data Outcome {ℓ} (A : Type ℓ) : Type ℓ where
  returned : A → Outcome A
  failed : ApiError → Outcome A
  unreachable : Outcome A

pub record Request {ℓ} (A : Type ℓ) : Type ℓ where
  pub outcome : Outcome A
  -- whether notifyUnauthorized was called
  pub unauthorized : Bool

-- `parseResponse`: undefined or a value, an ApiError, or the rejection of `response.text()`
pub data Payload : Type 0 where
  payload : Option JsonValue → Payload
  broken : Payload
  interrupted : Payload

abbrev pub parsed_payload : Option JsonValue → Payload
parsed_payload none = broken
parsed_payload (some v) = payload (some v)

-- `envelope.data`, or the payload where it is no envelope
abbrev pub data_of : Option JsonObject → Option JsonValue → Option JsonValue
data_of none whole = whole
data_of (some envelope) whole = lookup "data" envelope

module _ (parse : String → Option JsonValue) where
  -- `parseResponse` from the text on
  abbrev pub read_body : Option String → Payload
  read_body none = interrupted
  read_body (some text) = if is_blank text then payload none else parsed_payload (parse text)

  unfoldable pub parse_response : Response → Payload
  parse_response response =
      if nat_eq response.status 204 then payload none else read_body response.body

  -- apiRequest from the parsed body on: the data of apiRequestEnvelope's envelope.
  unfoldable pub finish_request : Response → Payload → Request (Option JsonValue)
  unfolding as_envelope response_error
  finish_request response broken = record {
    outcome = failed (record {
      message = "Invalid JSON response";
      status = response.status;
      code = string "invalid_response";
    });
    unauthorized = false;
  }
  finish_request response interrupted = record { outcome = unreachable; unauthorized = false }
  finish_request response (payload p) =
      if is_ok response.status
      then record { outcome = returned (data_of (as_envelope p) p); unauthorized = false }
      else record {
        outcome = failed (response_error response p);
        unauthorized = nat_eq response.status 401;
      }

  unfoldable pub api_request : Option Response → Request (Option JsonValue)
  unfolding parse_response finish_request
  api_request none = record { outcome = unreachable; unauthorized = false }
  api_request (some response) = finish_request response (parse_response response)

-- `Headers`: `set` replaces, `has` tests.
abbrev pub Headers : Type 0
Headers = List (String × String)

module _ (lower : String → String) where
  abbrev pub has_header : String → Headers → Bool
  has_header name headers = any (λ h. lower h.0 == lower name) headers

  unfoldable pub set_header : String → String → Headers → Headers
  set_header name value headers =
      keep (λ h. not (lower h.0 == lower name)) headers ++ (name, value) ∷ []

  -- The token of the session, where there is one that is not empty.
  abbrev pub authorize : Option String → Headers → Headers
  authorize none headers = headers
  authorize (some token) headers =
      if is_blank token
      then headers
      else set_header "Authorization" (String.◌++◌ "Bearer " token) headers

  unfoldable pub create_headers : Headers → Bool → Option String → Headers
  unfolding set_header
  create_headers init has_body token =
      let accepting = set_header "Accept" "application/json" init in
      authorize token (
        if has_body && not (has_header "Content-Type" accepting)
        then set_header "Content-Type" "application/json" accepting
        else accepting)
