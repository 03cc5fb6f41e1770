-- ===== src/Api/Client/Outcomes.antt =====
-- What a request comes to. The design (docs/boxd/specs/2026-07-14-frontend-design.md) asks that a 401
-- clears the session; the code reads the body first, so that it misses a 401 whose body is no JSON.
use boxui.Base.{
  String, true, false, Option, none, some, ◌≡◌, ◌≢◌, ◌↔◌, inl, inr, refl, sym, ap, ◌≤◌, nat_eq,
  Bool-cases, Option-cases, ◌∙◌, arith,
}
use mathlib.Core.Bool.{false≢true}
use boxui.Text.Trim.{is_blank}
use boxui.Json.{JsonValue}
use boxui.Api.Client.{
  Response, is_ok, parsed_payload, response_error, Outcome, returned, failed, unreachable, Payload,
  payload, broken, interrupted, Request, read_body, parse_response, finish_request, api_request,
}

module _ (parse : String → Option JsonValue) where
  -- The answer has no content, an empty body or a body that is JSON.
  pub data IsReadable (response : Response) : Type 0 where
    no_content : response.status ≡ 204 → IsReadable response
    no_text : response.body ≡ some "" → IsReadable response
    json :
        (text : String) (v : JsonValue)
        → response.body ≡ some text
        → parse text ≡ some v
        → IsReadable response

  -- The answer is a success that can be read.
  abbrev pub IsAnswered : Response → Type 0
  IsAnswered response = (200 ≤ response.status) × (response.status ≤ 299) × IsReadable response

  -- What an outcome tells of the answer.
  abbrev pub TellsStatus {ℓ} : {A : Type ℓ} → Response → Outcome A → Type 0
  TellsStatus response (returned a) = IsAnswered response
  TellsStatus response (failed error) = (error.status ≡ response.status) × (¬ IsAnswered response)
  TellsStatus response unreachable = (response.body ≡ none) × (response.status ≢ 204)

  -- What a parsed answer tells of it.
  abbrev pub TellsBody : Response → Payload → Type 0
  TellsBody response (payload p) = IsReadable response
  TellsBody response broken = ¬ IsReadable response
  TellsBody response interrupted = (response.body ≡ none) × (response.status ≢ 204)

  interrupted-unreadable :
      (response : Response) → response.body ≡ none → response.status ≢ 204 → ¬ IsReadable response
  interrupted-unreadable response absent other (no_content e) = other e
  interrupted-unreadable response absent other (no_text e) = cc (absent, e)
  interrupted-unreadable response absent other (json text v e p) = cc (absent, e)

  broken-unreadable :
      (response : Response) (text : String)
      → response.body ≡ some text
      → response.status ≢ 204
      → is_blank text ≡ false
      → parse text ≡ none
      → ¬ IsReadable response
  broken-unreadable response text there other filled refused (no_content e) = other e
  broken-unreadable response text there other filled refused (no_text e) =
      let same : text ≡ "" = cc (there, e) in false≢true (sym filled ∙ ap is_blank same)
  broken-unreadable response text there other filled refused (json t v e p) =
      let same : text ≡ t = cc (there, e) in cc (refused, p, same)

  text-TellsBody :
      (response : Response) (text : String)
      → response.body ≡ some text
      → response.status ≢ 204
      → is_blank text ≡ false
      → TellsBody response (parsed_payload (parse text))
  text-TellsBody response text there other filled = elim (Option-cases (parse text)) [
    | inl refused ↦ rw refused (broken-unreadable response text there other filled refused)
    | inr (v, p) ↦ rw p (json text v there p)
  ]

  blank-empty : (text : String) → is_blank text ≡ true → text ≡ ""
  blank-empty String.[] h = refl
  blank-empty (String.◌∷◌ c s) h = absurd (false≢true h)

  read_body-TellsBody :
      (response : Response) (body : Option String)
      → response.body ≡ body
      → response.status ≢ 204
      → TellsBody response (read_body parse body)
  read_body-TellsBody response none e other = (e, other)
  read_body-TellsBody response (some text) e other = elim (Bool-cases (is_blank text)) [
    | inl b ↦ rw b (no_text (e ∙ ap some (blank-empty text b)))
    | inr b ↦ rw b (text-TellsBody response text e other b)
  ]

  parse_response-TellsBody :
      (response : Response) → TellsBody response (parse_response parse response)
  unfolding parse_response
  parse_response-TellsBody response = elim (Bool-cases (nat_eq response.status 204)) [
    | inl e ↦ rw e (no_content (ground (arith, e)))
    | inr e ↦
        rw e (read_body-TellsBody response response.body refl (λ same. ground (arith, e, same)))
  ]

  -- An unauthorized answer is told of just where it can be read.
  abbrev pub TellsUnauthorized {ℓ} : {A : Type ℓ} → Response → Request A → Type 0
  TellsUnauthorized response request =
      (request.unauthorized ≡ true) ↔ ((response.status ≡ 401) × IsReadable response)

  finish_request-Tells :
      (response : Response) (p : Payload)
      → TellsBody response p
      → TellsStatus response (finish_request parse response p).outcome
        × TellsUnauthorized response (finish_request parse response p)
  unfolding finish_request response_error
  finish_request-Tells response broken h = (
    (refl, λ (_, _, readable). h readable),
    ((λ e. absurd (false≢true e)), λ both. absurd (h both.1)),
  )
  finish_request-Tells response interrupted h = (
    h,
    ((λ e. absurd (false≢true e)), λ both. absurd (interrupted-unreadable response h.0 h.1 both.1)),
  )
  finish_request-Tells response (payload p) h = elim (Bool-cases (is_ok response.status)) [
    | inl e ↦ rw e (
      (ground (arith, e), ground (arith, e), h),
      ((λ x. absurd (false≢true x)), λ both. ground (arith, e, both.0)),
    )
    | inr e ↦ rw e (
      (refl, λ (low, high, _). ground (arith, e, low, high)),
      ((λ x. (ground (arith, x), h)), λ both. ground (arith, both.0)),
    )
  ]

  -- A request that the server answers returns a value only for a status of 200 to 299 and a body that
  -- is empty or JSON; it fails with an error of the network only where the text of a body cannot be
  -- had, and otherwise with an ApiError of the answer's status. The handler of unauthorized requests
  -- is called just when the status is 401 and the body is empty or JSON: a 401 with any other body is
  -- missed, though the design asks that each one clears the session.
  pub api_request-TellsStatus :
      (response : Response)
      → TellsStatus response (api_request parse (some response)).outcome
        × TellsUnauthorized response (api_request parse (some response))
  unfolding api_request
  api_request-TellsStatus response =
      finish_request-Tells response (parse_response parse response)
        (parse_response-TellsBody response)
