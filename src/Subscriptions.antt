-- ===== src/Subscriptions.antt =====
-- ui/src/features/subscriptions/subscription-dialog.tsx: the URL test settings of a subscription as
-- the form holds them. A tolerance is a whole number; `Number` on a text is the parameter `to_number`,
-- and isHTTPURL, isPositiveDuration and isTolerance of ui/src/lib/urltest.ts are parameters.
pub mod Kept
use boxui.Base.{
  ℕ, String, Bool, true, false, Option, none, some, ◌&&◌, ◌||◌, not, or_else, if◌then◌else◌,
}
use boxui.Text.{decimal}
use boxui.Text.Trim.{trim, is_blank}

pub record UrlTestOverrides : Type 0 where
  pub enabled : Option Bool
  pub url : Option String
  pub interval : Option String
  pub tolerance : Option ℕ

pub data UrlTestPolicy : Type 0 where
  inherit enabled disabled : UrlTestPolicy

pub record UrlTestFormState : Type 0 where
  pub policy : UrlTestPolicy
  pub url : String
  pub interval : String
  pub tolerance : String

-- `enabled === undefined ? "inherit" : enabled ? "enabled" : "disabled"`
abbrev pub policy_of : Option Bool → UrlTestPolicy
policy_of none = inherit
policy_of (some true) = enabled
policy_of (some false) = disabled

abbrev pub tolerance_text : Option ℕ → String
tolerance_text none = ""
tolerance_text (some n) = decimal n

abbrev pub state_of : UrlTestOverrides → UrlTestFormState
state_of o = record {
  policy = policy_of o.enabled;
  url = or_else o.url "";
  interval = or_else o.interval "";
  tolerance = tolerance_text o.tolerance;
}

-- `initialURLTestState`, of the subscription's overrides
unfoldable pub initial_url_test_state : Option UrlTestOverrides → UrlTestFormState
initial_url_test_state none = record { policy = inherit; url = ""; interval = ""; tolerance = "" }
initial_url_test_state (some o) = state_of o

-- `if (text.trim()) overrides.key = text.trim()`
abbrev pub trimmed : String → Option String
trimmed s = if is_blank (trim s) then none else some (trim s)

module _ (to_number : String → ℕ) where
  abbrev pub overrides_of : UrlTestPolicy → UrlTestFormState → Option UrlTestOverrides
  overrides_of inherit s = none
  overrides_of disabled s =
      some (record { enabled = some false; url = none; interval = none; tolerance = none })
  overrides_of enabled s = some (record {
    enabled = some true;
    url = trimmed s.url;
    interval = trimmed s.interval;
    tolerance = if is_blank (trim s.tolerance) then none else some (to_number s.tolerance);
  })

  unfoldable pub build_url_test_overrides : UrlTestFormState → Option UrlTestOverrides
  build_url_test_overrides s = overrides_of s.policy s

abbrev pub is_enabled : UrlTestPolicy → Bool
is_enabled inherit = false
is_enabled disabled = false
is_enabled enabled = true

module _ (is_http_url is_positive_duration is_tolerance : String → Bool) where
  unfoldable pub is_url_test_state_invalid : UrlTestFormState → Bool
  is_url_test_state_invalid s =
      is_enabled s.policy
      && (not (is_blank s.url) && not (is_http_url s.url)
          || not (is_blank s.interval) && not (is_positive_duration s.interval)
          || not (is_blank s.tolerance) && not (is_tolerance s.tolerance))
