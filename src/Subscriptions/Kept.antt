-- ===== src/Subscriptions/Kept.antt =====
-- The settings that the dialog opens with are the ones that it saves.
use boxui.Base.{ℕ, String, true, false, Option, none, some, ◌≡◌, refl, or_else, if◌then◌else◌}
use boxui.Text.{decimal}
use boxui.Text.Trim.{trim, is_blank}
use boxui.Text.Digits.RoundTrip.{is_digits-decimal}
use boxui.Text.Digits.Trim.{trim-digits, is_digits-not_blank}
use boxui.Subscriptions.{
  UrlTestOverrides, tolerance_text, trimmed, initial_url_test_state, build_url_test_overrides,
}

-- Absent, or trimmed and filled.
unfoldable pub IsTidy : Option String → Type 0
IsTidy none = Unit
IsTidy (some s) = (trim s ≡ s) × (is_blank s ≡ false)

trim_empty : trim "" ≡ ""
unfolding trim
trim_empty = refl

trimmed-tidy : (s : Option String) → IsTidy s → trimmed (or_else s "") ≡ s
unfolding IsTidy
trimmed-tidy none h = rw trim_empty refl
trimmed-tidy (some s) (kept, filled) = rw (kept, filled) refl

module _ (to_number : String → ℕ) where
  tolerance-kept :
      (t : Option ℕ)
      → ((n : ℕ) → to_number (decimal n) ≡ n)
      → (if is_blank (trim (tolerance_text t)) then none else some (to_number (tolerance_text t)))
        ≡ t
  tolerance-kept none reads = rw trim_empty refl
  tolerance-kept (some n) reads =
      rw
        (
          trim-digits (decimal n) (is_digits-decimal n),
          is_digits-not_blank (decimal n) (is_digits-decimal n),
          reads n,
        )
        refl

  -- Opening the dialog on a subscription whose URL test is enabled, with a trimmed URL and interval
  -- where it has them, and saving it unchanged keeps the overrides, where Number reads back what
  -- String prints.
  pub build-initial_url_test_state :
      (o : UrlTestOverrides)
      → ((n : ℕ) → to_number (decimal n) ≡ n)
      → o.enabled ≡ some true
      → IsTidy o.url
      → IsTidy o.interval
      → build_url_test_overrides to_number (initial_url_test_state (some o)) ≡ some o
  unfolding build_url_test_overrides initial_url_test_state
  build-initial_url_test_state o reads on url interval =
      rw
        (
          on,
          trimmed-tidy o.url url,
          trimmed-tidy o.interval interval,
          tolerance-kept o.tolerance reads,
        )
        refl
