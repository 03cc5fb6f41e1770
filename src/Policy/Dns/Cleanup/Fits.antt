-- ===== src/Policy/Dns/Cleanup/Fits.antt =====
-- Which values fit a kind of field of the DNS forms, and what the changes of type and action of
-- ui/src/features/policy/dns-form-cleanup.ts carry over.
use mathlib.Core.Bool.{decide_iff, false≢true}
use boxui.Base.{
  ℕ, String, Bool, true, Option, none, some, List, [], ◌∷◌, ◌≡◌, ◌↔◌, ◌⊎◌, ◌≤◌, refl, sym, ap, ◌∙◌,
  Option-cases, Bool-cases, inl, inr, or_else, arith, if◌then◌else◌,
}
use boxui.Json.{natural, JsonValue, number}
use boxui.Form.{table_get}
use boxui.Policy.FormModel.Carried.{
  Carries, absent, kept, dropped, Survives, IsDistinct, last_at, offered, passes, passes-Survives,
}
use boxui.Policy.Route.Transition.{is_string, is_array_of}
use boxui.Policy.Route.Transition.Values.{
  IsString, IsBoolean, IsObject, IsArrayOf, is_string-IsString, is_boolean-IsBoolean,
  is_json_object-IsObject, is_array_of-IsArrayOf, or_iff,
}
use boxui.Policy.Dns.Cleanup.{
  valid_integer, is_query_type, matches_kind, matches_field, shared_by, compatible_fields, map_get,
  is_kept, max_safe_integer,
}
use boxui.Policy.Dns.Cleanup.Fields.{
  CleanupKind, CleanupField, CleanupRegistry, same_kind, OptionCleanupKind-discrete,
}

-- A whole number up to a maximum.
pub data IsIntegerTo (maximum : ℕ) : JsonValue → Type 0 where
  integer_to : (n : ℕ) → n ≤ maximum → IsIntegerTo maximum (number (natural n))

valid_integer-IsIntegerTo :
    (v : JsonValue) (maximum : ℕ) → (valid_integer v maximum ≡ true) ↔ IsIntegerTo maximum v
unfolding valid_integer
valid_integer-IsIntegerTo (number (natural n)) maximum = (
  (λ e. integer_to n (ground (arith, e))),
  λ h. elim h [ integer_to m small ↦ ground (arith, small) ],
)
valid_integer-IsIntegerTo _ maximum = ((λ e. absurd (false≢true e)), λ h. elim h [ ])

-- A name or a 16-bit code.
abbrev pub IsQueryType : JsonValue → Type 0
IsQueryType v = IsString v ⊎ IsIntegerTo 65535 v

-- A number that JavaScript holds exactly.
abbrev pub IsSafeInteger : JsonValue → Type 0
IsSafeInteger v = IsIntegerTo 9007199254740991 v

abbrev pub IsAny : JsonValue → Type 0
IsAny v = Unit

-- `none` is a field whose kind is left out.
unfoldable pub Fits : Option CleanupKind → JsonValue → Type 0
Fits none v = IsString v
Fits (some CleanupKind.string) v = IsString v
Fits (some CleanupKind.boolean) v = IsBoolean v
Fits (some CleanupKind.number) v = IsSafeInteger v
Fits (some CleanupKind.list) v = IsString v ⊎ IsArrayOf IsString v
Fits (some CleanupKind.number_list) v = IsSafeInteger v ⊎ IsArrayOf IsSafeInteger v
Fits (some CleanupKind.json_object) v = IsObject v
Fits (some CleanupKind.json_array) v = IsArrayOf IsAny v
Fits (some CleanupKind.query_type) v = IsQueryType v ⊎ IsArrayOf IsQueryType v
Fits (some CleanupKind.rcode) v = IsString v ⊎ IsIntegerTo 4095 v
Fits (some CleanupKind.routing_mark) v = IsString v ⊎ IsIntegerTo 4294967295 v

abbrev fits_kind : Option CleanupKind → JsonValue → Bool
fits_kind k v = matches_kind v (or_else k CleanupKind.string)

is_query_type-IsQueryType : (v : JsonValue) → (is_query_type v ≡ true) ↔ IsQueryType v
unfolding is_query_type
is_query_type-IsQueryType v =
    or_iff (is_string v) (valid_integer v 65535) (is_string-IsString v)
      (valid_integer-IsIntegerTo v 65535)

valid_integer-IsSafeInteger :
    (v : JsonValue) → (valid_integer v max_safe_integer ≡ true) ↔ IsSafeInteger v
valid_integer-IsSafeInteger v = valid_integer-IsIntegerTo v 9007199254740991

matches_kind-Fits : (k : Option CleanupKind) (v : JsonValue) → (fits_kind k v ≡ true) ↔ Fits k v
unfolding matches_kind Fits
matches_kind-Fits none v = is_string-IsString v
matches_kind-Fits (some CleanupKind.string) v = is_string-IsString v
matches_kind-Fits (some CleanupKind.boolean) v = is_boolean-IsBoolean v
matches_kind-Fits (some CleanupKind.number) v = valid_integer-IsSafeInteger v
matches_kind-Fits (some CleanupKind.list) v =
    or_iff (is_string v) (is_array_of is_string v) (is_string-IsString v)
      (is_array_of-IsArrayOf is_string IsString is_string-IsString v)
matches_kind-Fits (some CleanupKind.number_list) v =
    or_iff (valid_integer v max_safe_integer)
      (is_array_of (λ item. valid_integer item max_safe_integer) v) (valid_integer-IsSafeInteger v)
      (is_array_of-IsArrayOf (λ item. valid_integer item max_safe_integer) IsSafeInteger
        valid_integer-IsSafeInteger v)
matches_kind-Fits (some CleanupKind.json_object) v = is_json_object-IsObject v
matches_kind-Fits (some CleanupKind.json_array) v =
    is_array_of-IsArrayOf (λ item. true) IsAny (λ item. ((λ e. tt), λ h. refl)) v
matches_kind-Fits (some CleanupKind.query_type) v =
    or_iff (is_query_type v) (is_array_of is_query_type v) (is_query_type-IsQueryType v)
      (is_array_of-IsArrayOf is_query_type IsQueryType is_query_type-IsQueryType v)
matches_kind-Fits (some CleanupKind.rcode) v =
    or_iff (is_string v) (valid_integer v 4095) (is_string-IsString v)
      (valid_integer-IsIntegerTo v 4095)
matches_kind-Fits (some CleanupKind.routing_mark) v =
    or_iff (is_string v) (valid_integer v 4294967295) (is_string-IsString v)
      (valid_integer-IsIntegerTo v 4294967295)

same_kind_iff : (a b : Option CleanupKind) → (same_kind a b ≡ true) ↔ (a ≡ b)
unfolding same_kind
same_kind_iff a b = decide_iff (OptionCleanupKind-discrete a b)

abbrev pub path_of : CleanupField → String
path_of f = f.path

abbrev pub kind_of : CleanupField → Option CleanupKind
kind_of f = f.kind

map_get-last_at :
    (fields : List CleanupField) (q : String) → map_get fields q ≡ last_at path_of kind_of fields q
unfolding map_get
map_get-last_at [] q = refl
map_get-last_at (f ∷ fields) q = rw (map_get-last_at fields q) refl

-- The new type has the field, the old type, where it is a known one, has it with the same kind, and
-- the value fits that kind.
abbrev pub CleanupSurvives : CleanupRegistry → String → String → String → JsonValue → Type 0
CleanupSurvives registry current type q =
    Survives path_of kind_of Fits (table_get registry current)
      (or_else (table_get registry type) []) q

compatible_fields-offered :
    (registry : CleanupRegistry) (current type : String)
    → compatible_fields registry (record { current = current; target = type; share = true })
      ≡ offered path_of kind_of same_kind fits_kind Fits
          (table_get registry current)
          (or_else (table_get registry type) [])
unfolding compatible_fields shared_by
compatible_fields-offered registry current type = elim (Option-cases (table_get registry current)) [
  | inl e ↦ rw e refl
  | inr (source, e) ↦ rw e refl
]

is_kept-passes :
    (compatible : List CleanupField) (f : CleanupField) (v : JsonValue)
    → is_kept compatible f (some v)
      ≡ passes path_of kind_of same_kind fits_kind Fits
          (last_at path_of kind_of compatible f.path)
          v
unfolding is_kept matches_field
is_kept-passes compatible f v = elim (Option-cases (map_get compatible f.path)) [
  | inl e ↦ rw (sym (map_get-last_at compatible f.path), is_kept, e) refl
  | inr (g, e) ↦ rw (sym (map_get-last_at compatible f.path), is_kept, e) refl
]

-- The value that is kept, where the types share their fields.
pub is_kept-Carries :
    (registry : CleanupRegistry) (current type : String) (f : CleanupField)
    (value : Option JsonValue)
    → IsDistinct path_of kind_of (or_else (table_get registry type) [])
    → Carries (CleanupSurvives registry current type f.path) value (
        if is_kept
          (compatible_fields registry (record { current = current; target = type; share = true }))
          f
          value
        then value
        else none)
unfolding is_kept
is_kept-Carries registry current type f none d = absent
is_kept-Carries registry current type f (some v) d =
    let compatible =
      compatible_fields registry (record { current = current; target = type; share = true }) in
    let decided =
      passes-Survives path_of kind_of same_kind fits_kind Fits same_kind_iff matches_kind-Fits
        (table_get registry current) (or_else (table_get registry type) []) f.path v d in
    let test : is_kept compatible f (some v)
        ≡ passes path_of kind_of same_kind fits_kind Fits
            (last_at path_of kind_of
              (offered path_of kind_of same_kind fits_kind Fits (table_get registry current)
                (or_else (table_get registry type) []))
              f.path)
            v =
      is_kept-passes compatible f v
      ∙ ap
          (λ fs.
            passes path_of kind_of same_kind fits_kind Fits (last_at path_of kind_of fs f.path) v)
          (compatible_fields-offered registry current type) in
    elim (Bool-cases (is_kept compatible f (some v))) [
      | inl e ↦ rw e (kept v (decided.0 (sym test ∙ e)))
      | inr e ↦ rw e (dropped v (λ s. false≢true (sym e ∙ test ∙ decided.1 s)))
    ]
