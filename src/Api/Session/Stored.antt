-- ===== src/Api/Session/Stored.antt =====
-- The session that is read from the storage.
use boxui.Base.{
  ℕ, String, Bool, true, false, Option, none, some, ◌≡◌, ◌<◌, refl, ap, ◌∙◌, arith, Bool-cases, inl,
  inr, ◌⊎◌, if◌then◌else◌, subst,
}
use boxui.Text.Trim.{is_blank}
use boxui.Json.{JsonValue, object, JsonObject, lookup}
use boxui.Api.Session.{
  Session, Storage, as_session, remove_session, Got, is_past, keep_unexpired, read_parsed,
  read_item, get_session, session_object, set_session,
}

blank_text : (raw : String) → is_blank raw ≡ true → raw ≡ ""
blank_text String.[] h = refl
blank_text (String.◌∷◌ c s) h = ground (arith, h)

module _ (parse : String → Option JsonValue) (date_parse : String → Option ℕ) (now : ℕ) where
  -- What holds after a `get`: either a session that is not over, with the storage as it was, or none,
  -- with nothing left in a storage that works but an empty text.
  abbrev pub IsChecked : Storage → Option Session → Storage → Type 0
  IsChecked before (some session) after =
      (after ≡ before) × ((time : ℕ) → date_parse session.expires_at ≡ some time → now < time)
  IsChecked before none after = (after.works ≡ true) → (after.item ≡ none) ⊎ (after.item ≡ some "")

  unfoldable pub IsCheckedGot : Storage → Got → Type 0
  unfolding IsChecked
  IsCheckedGot before got = IsChecked before got.session got.storage

  removed : (s : Storage) → IsChecked s none (remove_session s)
  unfolding remove_session
  removed s h = inl (ground arith)

  gone : (s : Storage) → IsCheckedGot s (record { session = none; storage = remove_session s })
  unfolding IsCheckedGot
  gone s = removed s

  keep-IsCheckedGot :
      (s : Storage) (session : Option Session)
      → IsCheckedGot s (keep_unexpired parse date_parse now s session)
  unfolding IsCheckedGot
  keep-IsCheckedGot s none = removed s
  keep-IsCheckedGot s (some session) =
      elim (Bool-cases (is_past parse date_parse now (date_parse session.expires_at))) [
        | inl e ↦ rw e (removed s)
        | inr e ↦ rw e (
          refl,
          λ time h. ground (arith, subst (λ t. is_past parse date_parse now t ≡ false) h e),
        )
      ]

  parsed-IsCheckedGot :
      (s : Storage) (v : Option JsonValue) → IsCheckedGot s (read_parsed parse date_parse now s v)
  unfolding IsCheckedGot
  parsed-IsCheckedGot s none = removed s
  parsed-IsCheckedGot s (some v) = keep-IsCheckedGot s (as_session v)

  item-IsCheckedGot :
      (s : Storage) (item : Option String)
      → s.item ≡ item
      → IsCheckedGot s (read_item parse date_parse now s item)
  unfolding IsCheckedGot
  item-IsCheckedGot s none e = λ h. inl e
  item-IsCheckedGot s (some raw) e = elim (Bool-cases (is_blank raw)) [
    | inl b ↦ rw b (λ h. inr (e ∙ ap some (blank_text raw b)))
    | inr b ↦ rw b (parsed-IsCheckedGot s (parse raw))
  ]

  branch-IsCheckedGot :
      (b : Bool) (s : Storage) (x y : Got)
      → IsCheckedGot s x
      → IsCheckedGot s y
      → IsCheckedGot s (if b then x else y)
  branch-IsCheckedGot true s x y h k = h
  branch-IsCheckedGot false s x y h k = k

  -- A session that sessionStore.get returns has not expired, where its date can be read, and leaves
  -- the storage alone; where it returns none, a storage that works holds no text but the empty one.
  pub get_session-IsCheckedGot : (s : Storage) → IsCheckedGot s (get_session parse date_parse now s)
  unfolding get_session
  get_session-IsCheckedGot s =
      branch-IsCheckedGot s.works s (read_item parse date_parse now s s.item)
        (record { session = none; storage = remove_session s }) (item-IsCheckedGot s s.item refl)
        (gone s)

  -- Where JSON.parse reads back what JSON.stringify writes for the session, not an empty text, and
  -- the storage works, a session that was set and has not expired is the one that sessionStore.get returns.
  pub get_session-set_session :
      (stringify : JsonObject → String) (s : Storage) (session : Session)
      → parse (stringify (session_object session)) ≡ some (object (session_object session))
      → is_blank (stringify (session_object session)) ≡ false
      → s.works ≡ true
      → is_past parse date_parse now (date_parse session.expires_at) ≡ false
      → (get_session parse date_parse now (set_session stringify session s)).session ≡ some session
  unfolding get_session set_session as_session session_object lookup
  get_session-set_session stringify s session reads filled works open_still =
      rw (works, filled, reads, open_still) refl
