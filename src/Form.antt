-- ===== src/Form.antt =====
-- The shape of a form field, which ui/src/features/policy/policy-form-model.ts and
-- ui/src/features/proxy/proxy-form-model.ts both declare, over the kinds and references of each.
-- An absent `when` is the empty list and a single rule a list of one: `isFieldVisible` asks that
-- every rule holds. An absent list of options is the empty list.
use boxui.Base.{String, Bool, true, false, Option, none, some, List, [], ◌∷◌, ◌==◌, if◌then◌else◌}
use boxui.Json.{JsonValue}

pub record FieldWhen : Type 0 where
  pub path : String
  pub is : Option (List JsonValue)
  pub falsy : Bool

pub record FieldSpec (K R : Type 0) : Type 0 where
  pub path : String
  pub label : String
  pub kind : Option K
  pub options : List String
  pub required : Bool
  pub section_name : Option String
  pub rules : List FieldWhen
  pub ref : Option R

-- How the field tables are written.
abbrev pub field : {K R : Type 0} → String → String → Option K → Option String → FieldSpec K R
field path label kind section_name = record {
  path = path;
  label = label;
  kind = kind;
  options = [];
  required = false;
  section_name = section_name;
  rules = [];
  ref = none;
}

abbrev pub with_options : {K R : Type 0} → List String → FieldSpec K R → FieldSpec K R
with_options options f = record f { options = options }

abbrev pub with_ref : {K R : Type 0} → R → FieldSpec K R → FieldSpec K R
with_ref ref f = record f { ref = some ref }

abbrev pub with_when : {K R : Type 0} → List FieldWhen → FieldSpec K R → FieldSpec K R
with_when rules f = record f { rules = rules }

abbrev pub is_required : {K R : Type 0} → FieldSpec K R → FieldSpec K R
is_required f = record f { required = true }

abbrev pub when_is : String → List JsonValue → FieldWhen
when_is path allowed = record { path = path; is = some allowed; falsy = false }

abbrev pub when_falsy : String → FieldWhen
when_falsy path = record { path = path; is = none; falsy = true }

abbrev pub when_set : String → FieldWhen
when_set path = record { path = path; is = none; falsy = false }

-- `Record<string, readonly FieldSpec[]>`, in the order of its keys.
abbrev pub FieldTable : Type 0 → Type 0 → Type 0
FieldTable K R = List (String × List (FieldSpec K R))

module _ {ℓ} {A : Type ℓ} where
  -- `table[key]`
  unfoldable pub table_get : List (String × A) → String → Option A
  table_get [] key = none
  table_get ((k, a) ∷ table) key = if k == key then some a else table_get table key

  -- `Object.values(table)`
  abbrev pub table_values : List (String × A) → List A
  table_values [] = []
  table_values ((k, a) ∷ table) = a ∷ table_values table
