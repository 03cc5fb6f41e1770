-- ===== src/Advanced/Endpoints/Ready/Detail.antt =====
-- The summary of an endpoint that is ready.
use Prim.Native.String
use text.Mathlib.TextLemmas.{nil-append, cons-append}
use boxui.Base.{
  String, true, false, Option, none, some, List, [], ◌∷◌, not, ◌≡◌, refl, sym, ap, ◌∙◌, arith, any,
  and-parts, Bool-cases, inl, inr,
}
use boxui.Text.Trim.{trim, is_blank, join}
use boxui.Json.{JsonValue, string, array, JsonObject, items, lookup}
use boxui.Proxy.ListPage.{keep_texts}
use boxui.Advanced.Endpoints.{EndpointType, infer_endpoint_type}
use boxui.Advanced.Endpoints.Ready.{
  has_text, holds_text, has_address, is_endpoint_ready, address_text, summary_of,
  summarize_endpoint,
}

-- A text that is not white space alone is not empty.
trim-blank : (s : String) → not (is_blank (trim s)) ≡ true → is_blank s ≡ false
unfolding trim
trim-blank String.[] h = sym h
trim-blank (String.◌∷◌ c s) h = refl

join-blank :
    (xs : List String) → any (λ s. not (is_blank s)) xs ≡ true → is_blank (join ", " xs) ≡ false
unfolding join
join-blank [] h = sym h
join-blank (s ∷ []) h = ground (arith, h)
join-blank (String.[] ∷ t ∷ rest) h =
    rw (nil-append (String.◌++◌ ", " (join ", " (t ∷ rest))), cons-append) refl
join-blank (String.◌∷◌ c s ∷ t ∷ rest) h = simp cons-append refl

blank-trim : (s : String) → is_blank s ≡ true → is_blank (trim s) ≡ true
unfolding trim
blank-trim String.[] h = refl
blank-trim (String.◌∷◌ c s) h = ground (arith, h)

any-keep_texts :
    (vs : List JsonValue)
    → any has_text vs ≡ true
    → any (λ s. not (is_blank s)) (keep_texts vs) ≡ true
unfolding keep_texts
any-keep_texts [] h = h
any-keep_texts (string s ∷ vs) h = elim (Bool-cases (is_blank s)) [
  | inl e ↦
      let others : any has_text vs ≡ true = ground (arith, h, blank-trim s e) in
      rw e (any-keep_texts vs others)
  | inr e ↦ rw e refl
]
any-keep_texts (_ ∷ vs) h = any-keep_texts vs h

address_text-blank :
    (address : Option JsonValue)
    → has_address address ≡ true
    → is_blank (address_text address) ≡ false
address_text-blank none h = sym h
address_text-blank (some (array vs)) h =
    join-blank (keep_texts (items vs)) (any-keep_texts (items vs) h)
address_text-blank (some (string s)) h = trim-blank s h
address_text-blank (some _) h = ground (arith, h)

ready-has_address :
    (item : JsonObject)
    → is_endpoint_ready item ≡ true
    → infer_endpoint_type item ≡ EndpointType.wireguard
    → has_address (lookup "address" item) ≡ true
unfolding is_endpoint_ready
ready-has_address item ready wireguard = elim (Bool-cases (holds_text (lookup "tag" item))) [
  | inl e ↦
      (and-parts (has_address (lookup "address" item)) (holds_text (lookup "private_key" item))
        (rw (e, wireguard) at ready)).0
  | inr e ↦ ground (arith, e, ready)
]

-- A WireGuard endpoint that is ready has a detail in its summary, the text of its addresses.
pub summarize_endpoint-ready :
    (item : JsonObject)
    → is_endpoint_ready item ≡ true
    → infer_endpoint_type item ≡ EndpointType.wireguard
    → (summarize_endpoint item).detail ≡ some (address_text (lookup "address" item))
unfolding summarize_endpoint
summarize_endpoint-ready item ready wireguard =
    ap (λ type. (summary_of item type).detail) wireguard
    ∙ rw (address_text-blank (lookup "address" item) (ready-has_address item ready wireguard)) refl
