-- ===== src/Api/Preferences/Read.antt =====
-- The preferences that are read, and the levels that a threshold lets through.
use boxui.Base.{
  ℕ, String, true, false, Option, none, some, ◌≡◌, ◌≤◌, refl, subst, Bool-cases, inl, inr, arith,
  if◌then◌else◌,
}
use boxui.Text.Trim.{is_blank}
use boxui.Json.{JsonValue, string, object, JsonObject, lookup}
use boxui.Api.Preferences.{
  LogThreshold, all, debug, info, warn, error, Theme, light, dark, system, Language, zh, en,
  Preferences, is_all, rank_of, threshold_rank, rank_reaches, meets_log_threshold, threshold_text,
  theme_text, language_text, read_threshold, read_theme, read_language, normalize_preferences,
  get_preferences, preferences_object,
}

read_theme-text : (t : Theme) → read_theme (some (string (theme_text t))) ≡ some t
unfolding read_theme
read_theme-text light = refl
read_theme-text dark = refl
read_theme-text system = refl

read_language-text : (l : Language) → read_language (some (string (language_text l))) ≡ some l
unfolding read_language
read_language-text zh = refl
read_language-text en = refl

read_threshold-text :
    (t : LogThreshold) → read_threshold (some (string (threshold_text t))) ≡ some t
unfolding read_threshold
read_threshold-text all = refl
read_threshold-text debug = refl
read_threshold-text info = refl
read_threshold-text warn = refl
read_threshold-text error = refl

-- Where JSON.parse reads back what JSON.stringify writes for them, not an empty text, the preferences that were stored are the
-- ones that are read.
pub get_preferences-stored :
    (parse : String → Option JsonValue) (stringify : JsonObject → String) (p : Preferences)
    → parse (stringify (preferences_object p)) ≡ some (object (preferences_object p))
    → is_blank (stringify (preferences_object p)) ≡ false
    → get_preferences parse (some (stringify (preferences_object p))) ≡ p
unfolding get_preferences normalize_preferences preferences_object lookup
get_preferences-stored parse stringify p reads filled =
    rw
      (
        filled,
        reads,
        read_theme-text p.theme,
        read_language-text p.language,
        read_threshold-text p.minimum_log_level,
      )
      refl

rank_reaches_less :
    (rank : Option ℕ) (m n : ℕ) → m ≤ n → rank_reaches rank n ≡ true → rank_reaches rank m ≡ true
rank_reaches_less none m n h reaches = reaches
rank_reaches_less (some r) m n h reaches = ground arith

-- A log line that a threshold other than "all" lets through is let through by every threshold of at
-- most its rank.
pub meets_log_threshold_lower :
    (to_lower : String → String) (level : String) (low high : LogThreshold)
    → threshold_rank low ≤ threshold_rank high
    → is_all high ≡ false
    → meets_log_threshold to_lower level high ≡ true
    → meets_log_threshold to_lower level low ≡ true
unfolding meets_log_threshold
meets_log_threshold_lower to_lower level low high h other reaches = elim (Bool-cases (is_all low)) [
  | inl e ↦ rw e refl
  | inr e ↦ rw e (
      rank_reaches_less (rank_of (to_lower level)) (threshold_rank low) (threshold_rank high) h (
        subst
          (λ b.
            (if b then true else rank_reaches (rank_of (to_lower level)) (threshold_rank high))
            ≡ true)
          other reaches))
]
