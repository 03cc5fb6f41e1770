-- ===== src/Api/Auth.antt =====
-- ui/src/features/auth/auth-context.tsx: AuthProvider, which keeps the session in its state and in
-- the session storage, and clears both when a request is answered as unauthorized. React's `useState`
-- is a field. The handler is set as long as the provider is mounted, which is as long as the panel is.
use boxui.Base.{ℕ, String, Bool, Option, none, some, ◌≡◌, refl, Bool-cases, inl, inr, if◌then◌else◌}
use boxui.Json.{JsonValue, JsonObject}
use boxui.Api.Session.{Session, Storage, remove_session, get_session, set_session}
use boxui.Api.Client.{Response, Request, api_request}
use boxui.Api.Client.Outcomes.{IsReadable, api_request-TellsStatus}

pub record AuthState : Type 0 where
  pub storage : Storage
  pub session : Option Session

-- `clear`
unfoldable pub clear : AuthState → AuthState
unfolding remove_session
clear s = record { storage = remove_session s.storage; session = none }

module _ (parse : String → Option JsonValue) (date_parse : String → Option ℕ) (now : ℕ) where
  -- The state that the provider starts with.
  unfoldable pub mount : Storage → AuthState
  unfolding get_session
  mount storage =
      let got = get_session parse date_parse now storage in
      record { storage = got.storage; session = got.session }

-- `login` after the server's answer
unfoldable pub login : (JsonObject → String) → Session → AuthState → AuthState
unfolding set_session
login stringify next s = record {
  storage = set_session stringify next s.storage;
  session = some next;
}

-- What a request leaves of the state.
abbrev pub notified : Bool → AuthState → AuthState
notified unauthorized s = if unauthorized then clear s else s

module _ (parse : String → Option JsonValue) where
  unfoldable pub request : Option Response → AuthState → AuthState × Request (Option JsonValue)
  unfolding api_request clear
  request response s =
      let answered = api_request parse response in (notified answered.unauthorized s, answered)

  -- `logout`, whose `finally` clears whatever the request came to.
  unfoldable pub logout : Option Response → AuthState → AuthState
  unfolding request clear
  logout response s = clear (request response s).0

  module _ (date_parse : String → Option ℕ) (now : ℕ) where
    -- No session is left in the state, and none is found in the storage when the panel starts again.
    unfoldable pub IsSignedOut : AuthState → Type 0
    IsSignedOut s = (s.session ≡ none) × ((mount parse date_parse now s.storage).session ≡ none)

    clear-IsSignedOut : (s : AuthState) → IsSignedOut (clear s)
    unfolding IsSignedOut clear mount get_session remove_session
    clear-IsSignedOut s = elim (Bool-cases s.storage.works) [
      | inl e ↦ rw e (refl, refl)
      | inr e ↦ rw e (refl, refl)
    ]

    -- A request that is answered by 401 with an empty or a JSON body leaves no session in the state and
    -- none that the panel finds when it starts again, and so does `logout`, whatever its own request
    -- comes to.
    pub request-IsSignedOut :
        (response : Response) (s : AuthState) (logout_response : Option Response)
        → response.status ≡ 401
        → IsReadable parse response
        → IsSignedOut (request (some response) s).0 × IsSignedOut (logout logout_response s)
    unfolding request logout
    request-IsSignedOut response s logout_response refused readable = (
      rw ((api_request-TellsStatus parse response).1.1 (refused, readable)) (clear-IsSignedOut s),
      clear-IsSignedOut (request logout_response s).0,
    )
