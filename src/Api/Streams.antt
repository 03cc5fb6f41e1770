-- ===== src/Api/Streams.antt =====
-- ui/src/features/observability/use-stream-buffer.ts: the items that a page keeps of a stream; and
-- ui/src/lib/speed-test-urls.ts.
pub mod Buffer
use boxui.Base.{
  ℕ, zero, suc, ◌-◌, String, Bool, true, false, List, [], ◌∷◌, ◌++◌, length, includes, reduce,
  nat_eq, if◌then◌else◌,
}
use boxui.Text.Trim.{is_blank}

module _ {ℓ} {A : Type ℓ} where
  abbrev pub skip : ℕ → List A → List A
  skip zero xs = xs
  skip (suc n) [] = []
  skip (suc n) (x ∷ xs) = skip n xs

  -- `items.slice(-limit)`, where `slice(-0)` is the whole list
  unfoldable pub slice_last : ℕ → List A → List A
  slice_last limit items = if nat_eq limit 0 then items else skip (length items - limit) items

  -- `setItems((current) => [...current, item].slice(-limit))`
  unfoldable pub push_item : ℕ → List A → A → List A
  unfolding slice_last
  push_item limit current item = slice_last limit (current ++ item ∷ [])

  -- The items after the events of a stream.
  unfoldable pub push_all : ℕ → List A → List A → List A
  unfolding push_item reduce
  push_all limit current events = reduce (push_item limit) current events

abbrev pub speed_test_url_presets : List String
speed_test_url_presets =
    "https://cp.cloudflare.com/" ∷ "https://www.gstatic.com/generate_204"
    ∷ "https://www.google-analytics.com/generate_204" ∷ "https://www.google.com/generate_204"
    ∷ "https://connectivitycheck.gstatic.com/generate_204"
    ∷ "https://spectrum.s3.amazonaws.com/kindle-wifi/wifistub.html" ∷ "https://captive.apple.com"
    ∷ "https://www.apple.com/library/test/success.html"
    ∷ "https://detectportal.firefox.com/success.txt" ∷ "https://www.v2ex.com/generate_204" ∷ []

abbrev pub default_speed_test_url : String
default_speed_test_url = "https://cp.cloudflare.com/"

unfoldable pub is_speed_test_url_preset : String → Bool
is_speed_test_url_preset url = includes speed_test_url_presets url

unfoldable pub resolve_speed_test_url_mode : String → String
unfolding is_speed_test_url_preset
resolve_speed_test_url_mode url =
    if is_blank url
    then default_speed_test_url
    else if is_speed_test_url_preset url
    then url
    else "manual"

unfoldable pub resolve_initial_speed_test_url : String → String
resolve_initial_speed_test_url url = if is_blank url then default_speed_test_url else url
