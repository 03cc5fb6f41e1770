-- ===== src/Proxy/Update/Agreement.antt =====
-- The proxy forms and the policy forms update a field alike.
use mathlib.Core.Bool.{false≢true}
use boxui.Base.{
  String, true, false, Option, none, some, List, [], ◌∷◌, ◌==◌, ◌≡◌, inl, inr, refl, ap, map, every,
  Bool-cases, if◌then◌else◌,
}
use boxui.Text.Trim.{is_blank}
use boxui.Json.{string, Number, natural, other_finite, infinite, number, JsonObject}
use boxui.Proxy.Kinds.{FieldKind}
use boxui.Proxy.FormModel.{set_path}
use boxui.Proxy.FormModel.Agreement.{set_path-agree}
use boxui.Policy.Kinds.{PolicyFieldKind}
use boxui.Policy.Number.{all_some}
use boxui.Policy.Number.Forms.{
  parse_list, update_kind, update_number, set_numbers, update_number_list,
}
use boxui.Proxy.Update.{is_finite, set_finite, update_list, update_proxy_kind}

-- The policy kind that is updated in the same way.
abbrev pub same_update : Option FieldKind → Option PolicyFieldKind
same_update (some FieldKind.list) = some PolicyFieldKind.list
same_update (some FieldKind.number_list) = some PolicyFieldKind.number_list
same_update (some FieldKind.number) = some PolicyFieldKind.number
same_update _ = none

-- `Number`, where the result is finite
abbrev pub finite : Number → Option Number
finite (natural n) = some (natural n)
finite (other_finite s) = some (other_finite s)
finite (infinite s) = none

all_some-finite :
    (ns : List Number) → all_some (map finite ns) ≡ (if every is_finite ns then some ns else none)
all_some-finite [] = refl
all_some-finite (natural n ∷ ns) =
    rw (all_some-finite ns)
      (elim (Bool-cases (every is_finite ns)) [ inl e ↦ rw e refl | inr e ↦ rw e refl ])
all_some-finite (other_finite s ∷ ns) =
    rw (all_some-finite ns)
      (elim (Bool-cases (every is_finite ns)) [ inl e ↦ rw e refl | inr e ↦ rw e refl ])
all_some-finite (infinite s ∷ ns) = refl

-- `Number.isFinite(n)` where `finite n` is a result
module _ (to_number : String → Number) where
  abbrev pub finite_number : String → Option Number
  finite_number s = finite (to_number s)

  map-finite : (values : List String) → map finite_number values ≡ map finite (map to_number values)
  map-finite [] = refl
  map-finite (v ∷ vs) = ap (λ rest. finite (to_number v) ∷ rest) (map-finite vs)

  set_finite-agree :
      (o : JsonObject) (path : String) (ns : List Number)
      → set_finite to_number o path ns
        ≡ set_numbers finite_number o path (if every is_finite ns then some ns else none)
  set_finite-agree o path ns = elim (Bool-cases (every is_finite ns)) [
    | inl e ↦ rw (e, set_path-agree) refl
    | inr e ↦ rw e refl
  ]

  update_list-agree :
      (o : JsonObject) (path : String) (values : Option (List String))
      → update_list to_number o path values ≡ update_number_list finite_number o path values
  update_list-agree o path none = rw set_path-agree refl
  update_list-agree o path (some values) =
      rw (map-finite values, all_some-finite (map to_number values))
        (set_finite-agree o path (map to_number values))

  set_number-agree :
      (o : JsonObject) (path : String) (n : Number)
      → is_finite n ≡ true
      → some (set_path o path (some (number n))) ≡ update_number finite_number o path (finite n)
  set_number-agree o path (natural n) h = rw set_path-agree refl
  set_number-agree o path (other_finite s) h = rw set_path-agree refl
  set_number-agree o path (infinite s) h = absurd (false≢true h)

  update_number-agree :
      (o : JsonObject) (path raw : String)
      → ((raw == "") ≡ false → is_finite (to_number raw) ≡ true)
      → update_proxy_kind to_number (some FieldKind.number) o path raw
        ≡ update_kind finite_number (some PolicyFieldKind.number) o path raw
  unfolding update_proxy_kind update_kind
  update_number-agree o path raw h = elim (Bool-cases (raw == "")) [
    | inl e ↦ rw e (ap (λ f. some (f o path none)) set_path-agree)
    | inr e ↦ rw e (set_number-agree o path (to_number raw) (h e))
  ]

  -- An update of a proxy field is that of a policy field of the kind that corresponds to its own, on
  -- the same object, path and text, where the text of a field of the kind number is empty or is that
  -- of a finite number.
  pub update_proxy_kind-agree :
      (k : Option FieldKind) (o : JsonObject) (path raw : String)
      → (k ≡ some FieldKind.number → (raw == "") ≡ false → is_finite (to_number raw) ≡ true)
      → update_proxy_kind to_number k o path raw
        ≡ update_kind finite_number (same_update k) o path raw
  unfolding update_proxy_kind update_kind
  update_proxy_kind-agree (some FieldKind.list) o path raw h = rw set_path-agree refl
  update_proxy_kind-agree (some FieldKind.number_list) o path raw h =
      update_list-agree o path (parse_list raw)
  update_proxy_kind-agree (some FieldKind.number) o path raw h =
      update_number-agree o path raw (h refl)
  update_proxy_kind-agree _ o path raw h =
      ap (λ f. some (f o path (if is_blank raw then none else some (string raw)))) set_path-agree
