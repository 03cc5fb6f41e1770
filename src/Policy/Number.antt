-- ===== src/Policy/Number.antt =====
-- ui/src/features/policy/policy-number-transform.ts and policy-field-update.ts (parseList).
-- `Number(raw)` of a text of digits is the number it writes, which is exact where it is a safe
-- integer, and a greater one never rounds to one. A record of constraints is an association list;
-- no form has a field whose path is a name that a record inherits.
pub mod Bounds
pub mod Forms
pub mod Printed
use mathlib.Core.Option
use Prim.Native.Char.{Char, code}
use Prim.Native.String
use boxui.Base.{
  ℕ, String, Bool, true, false, Option, none, some, List, [], ◌∷◌, map, keep, any, is_none, not,
  ◌==◌, ◌&&◌, ◌||◌, leb, nat_eq, if◌then◌else◌,
}
use boxui.Text.Trim.{trim, split_class, is_blank}
use boxui.Text.Digits.{is_digits, digits_value}
use boxui.Json.{JsonValue, string, number, array, natural, from_items, JsonObject}
use boxui.Policy.Kinds.{PolicyFieldKind, PolicyFieldSpec, same_kind}
use boxui.Policy.FormModel.{set_policy_path}
use boxui.Policy.Dialog.{TransformResult}

pub data NumberKind : Type 0 where
  integer list_of_integers mark : NumberKind

pub record PolicyNumberConstraint : Type 0 where
  pub kind : NumberKind
  pub maximum : ℕ
  pub allowed : Option (List ℕ)
  pub field_kind : Option PolicyFieldKind

-- `Number.MAX_SAFE_INTEGER`
abbrev pub max_safe_integer : ℕ
max_safe_integer = 9007199254740991

-- `!constraint.allowed || constraint.allowed.includes(value)`
abbrev pub is_allowed : Option (List ℕ) → ℕ → Bool
is_allowed none value = true
is_allowed (some allowed) value = any (λ a. nat_eq a value) allowed

-- `/[\n,]/`
abbrev pub is_list_separator : Char → Bool
is_list_separator c = nat_eq (code c) 10 || nat_eq (code c) b','

unfoldable pub decimal_integer : String → PolicyNumberConstraint → Option ℕ
decimal_integer raw constraint =
    let value = digits_value 10 0 raw in
    if not (is_digits 10 raw)
    then none
    else if not (leb value max_safe_integer) || not (leb value constraint.maximum)
    then none
    else if is_allowed constraint.allowed value
    then some value
    else none

-- `raw.split(/[\n,]/).map((token) => token.trim()).filter(Boolean)`
unfoldable pub list_tokens : String → List String
list_tokens raw =
    keep (λ token. not (is_blank token)) (map trim (split_class is_list_separator raw))

-- `values.some((value) => value === null) ? null : values`
abbrev pub all_some {ℓ} : {A : Type ℓ} → List (Option A) → Option (List A)
all_some [] = some []
all_some (none ∷ values) = none
all_some (some value ∷ values) = Option.map (λ rest. value ∷ rest) (all_some values)

unfoldable pub integer_list : String → PolicyNumberConstraint → Option (List ℕ)
unfolding list_tokens decimal_integer
integer_list raw constraint =
    all_some (map (λ token. decimal_integer token constraint) (list_tokens raw))

-- The base that the letter after a leading 0 names.
abbrev pub base_of : ℕ → Option ℕ
base_of c =
    if nat_eq c b'x' || nat_eq c b'X'
    then some 16
    else if nat_eq c b'b' || nat_eq c b'B'
    then some 2
    else if nat_eq c b'o' || nat_eq c b'O'
    then some 8
    else none

-- `BigInt(normalized) <= BigInt(maximum)` for digits of a base
abbrev pub within : ℕ → ℕ → String → Bool
within maximum base digits = is_digits base digits && leb (digits_value base 0 digits) maximum

-- What stringMark decides of the text after a leading 0: octal digits, or a letter and digits.
abbrev pub mark_rest : ℕ → String → Bool
mark_rest maximum String.[] = false
mark_rest maximum (String.◌∷◌ c s) =
    if is_digits 8 (String.◌∷◌ c s)
    then within maximum 8 (String.◌∷◌ c s)
    else elim (base_of (code c)) [ none ↦ false | some base ↦ within maximum base s ]

unfoldable pub string_mark : String → ℕ → Bool
string_mark String.[] maximum = false
string_mark (String.◌∷◌ c s) maximum = nat_eq (code c) b'0' && mark_rest maximum s

-- `constraints[path]`
unfoldable pub constraint_of :
    List (String × PolicyNumberConstraint) → String → Option PolicyNumberConstraint
constraint_of [] path = none
constraint_of ((name, constraint) ∷ rest) path =
    if name == path then some constraint else constraint_of rest path

-- `constraint.fieldKind && constraint.fieldKind !== field.kind`
abbrev pub other_kind : PolicyNumberConstraint → PolicyFieldSpec → Bool
other_kind constraint f =
    not (is_none constraint.field_kind) && not (same_kind constraint.field_kind f.kind)

-- `value === null ? null : setPolicyPath(object, path, value)`
abbrev pub set_or_reject : JsonObject → String → Option JsonValue → TransformResult
set_or_reject o path none = TransformResult.rejected
set_or_reject o path (some value) =
    TransformResult.transformed (set_policy_path o path (some value))

abbrev pub numbers : List ℕ → JsonValue
numbers values = array (from_items (map (λ n. number (natural n)) values))

abbrev pub is_mark : NumberKind → Bool
is_mark integer = false
is_mark list_of_integers = false
is_mark mark = true

abbrev pub is_integer_list : NumberKind → Bool
is_integer_list integer = false
is_integer_list list_of_integers = true
is_integer_list mark = false

-- The transform under the constraint of the field.
unfoldable pub constrained : PolicyNumberConstraint → JsonObject → String → String → TransformResult
unfolding decimal_integer integer_list string_mark
constrained constraint o path raw =
    let token = trim raw in
    if is_blank token
    then TransformResult.transformed (set_policy_path o path none)
    else if is_mark constraint.kind && string_mark token constraint.maximum
    then TransformResult.transformed (set_policy_path o path (some (string token)))
    else if is_integer_list constraint.kind
    then set_or_reject o path (Option.map numbers (integer_list raw constraint))
    else set_or_reject o path
        (Option.map (λ n. number (natural n)) (decimal_integer token constraint))

-- The transform for what `constraints[field.path]` is.
unfoldable pub transform_by :
    Option PolicyNumberConstraint → JsonObject → PolicyFieldSpec → String → TransformResult
unfolding constrained
transform_by none o f raw = TransformResult.undefined
transform_by (some constraint) o f raw =
    if other_kind constraint f
    then TransformResult.undefined
    else constrained constraint o f.path raw

unfoldable pub create_policy_number_transform :
    List (String × PolicyNumberConstraint) → JsonObject → PolicyFieldSpec → String → TransformResult
unfolding constraint_of transform_by
create_policy_number_transform constraints o f raw =
    transform_by (constraint_of constraints f.path) o f raw
