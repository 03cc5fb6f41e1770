-- ===== src/Policy/Route/Transition/Fits.antt =====
-- Which values fit a kind of field of the route forms, and what the changes of type and action of
-- ui/src/features/policy/route-form-model.ts carry over.
use mathlib.Core.Bool.{decide_iff, false≢true}
use boxui.Base.{
  String, Bool, true, Option, none, some, List, [], ◌∷◌, ◌||◌, ◌≡◌, ◌↔◌, ◌⊎◌, refl, sym, ap, ◌∙◌,
  Option-cases, Bool-cases, inl, inr, or_else,
}
use boxui.Json.{JsonValue}
use boxui.Form.{FieldTable, table_get}
use boxui.Policy.Kinds.{
  PolicyFieldKind as Kind, PolicyFieldRef as Ref, PolicyFieldSpec, same_kind,
  OptionPolicyFieldKind-discrete,
}
use boxui.Policy.FormModel.Carried.{
  Carries, absent, kept, dropped, Survives, IsDistinct, last_at, offered, passes, passes-Survives,
}
use boxui.Policy.Route.Transition.{
  is_finite_number, is_string, is_array_of, matches_kind, matches_field, map_get, field_transition,
  shared_by, compatible_fields,
}
use boxui.Policy.Route.Transition.Exact.{is_retained, retained}
use boxui.Policy.Route.Transition.Values.{
  IsString, IsBoolean, IsFinite, IsObject, IsArrayOf, IsPrimitive, is_string-IsString,
  is_boolean-IsBoolean, is_finite_number-IsFinite, is_json_object-IsObject,
  is_primitive-IsPrimitive, is_array_of-IsArrayOf, or_iff,
}

-- A string or a list of strings.
abbrev pub IsStringOrList : JsonValue → Type 0
IsStringOrList v = IsString v ⊎ IsArrayOf IsString v

abbrev pub IsAny : JsonValue → Type 0
IsAny v = Unit

unfoldable pub Fits : Option Kind → JsonValue → Type 0
Fits (some Kind.boolean) v = IsBoolean v
Fits (some Kind.number) v = IsFinite v
Fits (some Kind.list) v = IsStringOrList v
Fits (some Kind.network_multi) v = IsStringOrList v
Fits (some Kind.ref_multi) v = IsStringOrList v
Fits (some Kind.number_list) v = IsFinite v ⊎ IsArrayOf IsFinite v
Fits (some Kind.json_object) v = IsObject v
Fits (some Kind.json_array) v = IsArrayOf IsAny v
Fits _ v = IsPrimitive v

or-IsStringOrList :
    (v : JsonValue) → ((is_string v || is_array_of is_string v) ≡ true) ↔ IsStringOrList v
or-IsStringOrList v =
    or_iff (is_string v) (is_array_of is_string v) (is_string-IsString v)
      (is_array_of-IsArrayOf is_string IsString is_string-IsString v)

matches_kind-Fits : (k : Option Kind) (v : JsonValue) → (matches_kind v k ≡ true) ↔ Fits k v
unfolding matches_kind Fits
matches_kind-Fits (some Kind.boolean) v = is_boolean-IsBoolean v
matches_kind-Fits (some Kind.number) v = is_finite_number-IsFinite v
matches_kind-Fits (some Kind.list) v = or-IsStringOrList v
matches_kind-Fits (some Kind.network_multi) v = or-IsStringOrList v
matches_kind-Fits (some Kind.ref_multi) v = or-IsStringOrList v
matches_kind-Fits (some Kind.number_list) v =
    or_iff (is_finite_number v) (is_array_of is_finite_number v) (is_finite_number-IsFinite v)
      (is_array_of-IsArrayOf is_finite_number IsFinite is_finite_number-IsFinite v)
matches_kind-Fits (some Kind.json_object) v = is_json_object-IsObject v
matches_kind-Fits (some Kind.json_array) v =
    is_array_of-IsArrayOf (λ item. true) IsAny (λ item. ((λ e. tt), λ h. refl)) v
matches_kind-Fits _ v = is_primitive-IsPrimitive v

same_kind_iff : (a b : Option Kind) → (same_kind a b ≡ true) ↔ (a ≡ b)
unfolding same_kind
same_kind_iff a b = decide_iff (OptionPolicyFieldKind-discrete a b)

abbrev pub path_of : PolicyFieldSpec → String
path_of f = f.path

abbrev pub kind_of : PolicyFieldSpec → Option Kind
kind_of f = f.kind

map_get-last_at :
    (fields : List PolicyFieldSpec) (q : String)
    → map_get fields q ≡ last_at path_of kind_of fields q
unfolding map_get
map_get-last_at [] q = refl
map_get-last_at (f ∷ fields) q = rw (map_get-last_at fields q) refl

-- What a change from one type to another carries over at a path: the new type has the field, the old
-- type, where it is a known one, has it with the same kind, and the value fits that kind.
abbrev pub IsCarried :
    FieldTable Kind Ref → String → String → String → Option JsonValue → Option JsonValue → Type 0
IsCarried table current type q before after =
    Carries
      (Survives path_of kind_of Fits (table_get table current) (or_else (table_get table type) [])
        q)
      before after

abbrev fits_kind : Option Kind → JsonValue → Bool
fits_kind k v = matches_kind v k

compatible_fields-offered :
    (table : FieldTable Kind Ref) (current type : String)
    → compatible_fields (field_transition table current type)
      ≡ offered path_of kind_of same_kind fits_kind Fits
          (table_get table current)
          (or_else (table_get table type) [])
unfolding compatible_fields field_transition shared_by
compatible_fields-offered table current type = elim (Option-cases (table_get table current)) [
  | inl e ↦ rw e refl
  | inr (source, e) ↦ rw e refl
]

is_retained-passes :
    (compatible : List PolicyFieldSpec) (f : PolicyFieldSpec) (v : JsonValue)
    → is_retained compatible f (some v)
      ≡ passes path_of kind_of same_kind fits_kind Fits
          (last_at path_of kind_of compatible f.path)
          v
unfolding is_retained matches_field
is_retained-passes compatible f v = elim (Option-cases (map_get compatible f.path)) [
  | inl e ↦ rw (is_retained, e, sym (map_get-last_at compatible f.path), e) refl
  | inr (g, e) ↦ rw (is_retained, e, sym (map_get-last_at compatible f.path), e) refl
]

retained-none :
    (compatible : List PolicyFieldSpec) (f : PolicyFieldSpec) → retained compatible f none ≡ none
retained-none compatible f = elim (Bool-cases (is_retained compatible f none)) [
  | inl e ↦ rw e refl
  | inr e ↦ rw e refl
]

pub retained-IsCarried :
    (table : FieldTable Kind Ref) (current type : String) (f : PolicyFieldSpec)
    (value : Option JsonValue)
    → IsDistinct path_of kind_of (or_else (table_get table type) [])
    → IsCarried table current type f.path value
        (retained (compatible_fields (field_transition table current type)) f value)
retained-IsCarried table current type f none d =
    rw (retained-none (compatible_fields (field_transition table current type)) f) absent
retained-IsCarried table current type f (some v) d =
    let compatible = compatible_fields (field_transition table current type) in
    let decided =
      passes-Survives path_of kind_of same_kind fits_kind Fits same_kind_iff
        (λ k w. matches_kind-Fits k w) (table_get table current) (or_else (table_get table type) [])
        f.path v d in
    let test : is_retained compatible f (some v)
        ≡ passes path_of kind_of same_kind fits_kind Fits
            (last_at path_of kind_of
              (offered path_of kind_of same_kind fits_kind Fits (table_get table current)
                (or_else (table_get table type) []))
              f.path)
            v =
      is_retained-passes compatible f v
      ∙ ap
          (λ fs.
            passes path_of kind_of same_kind fits_kind Fits (last_at path_of kind_of fs f.path) v)
          (compatible_fields-offered table current type) in
    elim (Bool-cases (is_retained compatible f (some v))) [
      | inl e ↦ rw e (kept v (decided.0 (sym test ∙ e)))
      | inr e ↦ rw e (dropped v (λ s. false≢true (sym e ∙ test ∙ decided.1 s)))
    ]
