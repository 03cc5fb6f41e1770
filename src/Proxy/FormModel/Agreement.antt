-- ===== src/Proxy/FormModel/Agreement.antt =====
-- The proxy form model and the policy form model are the same functions, so that every law of the
-- one holds of the other.
use mathlib.Core.Path.{fun_ext}
use boxui.Base.{
  ℕ, zero, suc, String, Bool, true, false, not, Option, none, some, List, [], ◌∷◌, ◌≡◌, refl, ap,
  ◌∙◌, if◌then◌else◌, every, keep, length, reduce, is_none, or_else,
}
use boxui.Text.{split_dots}
use boxui.Json.{
  JsonValue, null, boolean, string, array, nil, cons, object, JsonObject, lookup, insert, delete,
  is_empty,
}
use boxui.Form.{FieldWhen, FieldSpec}
use boxui.Policy.FormModel as Policy
use boxui.Proxy.FormModel.{
  get_step, get_path, object_or_empty, update, set_path, is_falsy, is_allowed, matches_when,
  is_field_visible, visible_fields, prune_field, prune_loop, prune_invisible_fields,
}

get_step-agree : (v : Option JsonValue) (key : String) → get_step v key ≡ Policy.get_step v key
unfolding get_step Policy.get_step
get_step-agree none key = refl
get_step-agree (some (object o)) key = refl
get_step-agree (some _) key = refl

object_or_empty-agree : (v : Option JsonValue) → object_or_empty v ≡ Policy.child_of v
unfolding object_or_empty Policy.child_of
object_or_empty-agree none = refl
object_or_empty-agree (some (object o)) = refl
object_or_empty-agree (some _) = refl

-- `getPath` is the same function as `getPolicyPath`.
pub get_path-agree : get_path ≡ Policy.get_policy_path
unfolding get_path Policy.get_policy_path Policy.get_keys
get_path-agree =
    let step : get_step ≡ Policy.get_step = fun_ext λ v. fun_ext λ key. get_step-agree v key in
    λ i o path. reduce (step i) (some (object o)) (split_dots path)

if-not {ℓ} : {A : Type ℓ} (b : Bool) (x y : A) → (if not b then x else y) ≡ (if b then y else x)
if-not true x y = refl
if-not false x y = refl

update-agree :
    (o : JsonObject) (ps : List String) (v : Option JsonValue)
    → update o ps v ≡ Policy.update o ps v
unfolding update Policy.update Policy.attach
update-agree o [] v = refl
update-agree o (p ∷ []) none = refl
update-agree o (p ∷ []) (some v) = refl
update-agree o (p ∷ p' ∷ ps) v =
    let child = update (object_or_empty (lookup p o)) (p' ∷ ps) v in
    let same : child ≡ Policy.update (Policy.child_of (lookup p o)) (p' ∷ ps) v =
      update-agree (object_or_empty (lookup p o)) (p' ∷ ps) v
      ∙ ap (λ c. Policy.update c (p' ∷ ps) v) (object_or_empty-agree (lookup p o)) in
    if-not (is_empty child) (insert p (object child) o) (delete p o)
    ∙ ap (λ c. if is_empty c then delete p o else insert p (object c) o) same

-- `setPath` is the same function as `setPolicyPath`.
pub set_path-agree : set_path ≡ Policy.set_policy_path
unfolding set_path Policy.set_policy_path
set_path-agree = fun_ext λ o. fun_ext λ path. fun_ext λ v. update-agree o (split_dots path) v

is_falsy-agree : (v : Option JsonValue) → is_falsy v ≡ Policy.is_falsy v
unfolding is_falsy Policy.is_falsy
is_falsy-agree none = refl
is_falsy-agree (some null) = refl
is_falsy-agree (some (boolean b)) = refl
is_falsy-agree (some (string s)) = refl
is_falsy-agree (some (array nil)) = refl
is_falsy-agree (some (array (cons w ws))) = refl
is_falsy-agree (some _) = refl

is_allowed-agree :
    (allowed : List JsonValue) (v : Option JsonValue)
    → is_allowed allowed v ≡ Policy.is_allowed allowed v
unfolding is_allowed Policy.is_allowed
is_allowed-agree allowed none = refl
is_allowed-agree allowed (some v) = refl

-- The state of a rule: the value at its path, read with either function.
rule_test :
    (Option JsonValue → Bool)
    → (List JsonValue → Option JsonValue → Bool)
    → (JsonObject → String → Option JsonValue)
    → JsonObject
    → FieldWhen
    → Bool
rule_test falsy allow get o rule =
    let value = get o rule.path in
    if rule.falsy
    then falsy value
    else elim rule.is [ some allowed ↦ allow allowed value | none ↦ not (falsy value) ]

matches_when-agree : matches_when ≡ Policy.matches_when
unfolding matches_when Policy.matches_when rule_test
matches_when-agree =
    let falsy : is_falsy ≡ Policy.is_falsy = fun_ext is_falsy-agree in
    let allow : is_allowed ≡ Policy.is_allowed = fun_ext λ a. fun_ext λ v. is_allowed-agree a v in
    λ i. rule_test (falsy i) (allow i) (get_path-agree i)

module _ {K R : Type 0} where
  is_field_visible-agree : is_field_visible {K = K} {R = R} ≡ Policy.is_policy_field_visible
  unfolding is_field_visible Policy.is_policy_field_visible
  is_field_visible-agree = λ i o f. every (matches_when-agree i o) f.rules

  -- `visibleFields` is the same function as `visiblePolicyFields`.
  pub visible_fields-agree : visible_fields {K = K} {R = R} ≡ Policy.visible_policy_fields
  unfolding visible_fields Policy.visible_policy_fields
  visible_fields-agree = λ i fields o. keep (is_field_visible-agree i o) fields

  round :
      (JsonObject → FieldSpec K R → Bool)
      → (JsonObject → String → Option JsonValue)
      → (JsonObject → String → Option JsonValue → JsonObject)
      → JsonObject × Bool
      → FieldSpec K R
      → JsonObject × Bool
  round visible get set (next, changed) f =
      if visible next f
      then (next, changed)
      else if is_none (get next f.path)
      then (next, changed)
      else (set next f.path none, true)

  prune_field-agree : prune_field {K = K} {R = R} ≡ Policy.prune_field
  unfolding prune_field Policy.prune_field round
  prune_field-agree = λ i. round (is_field_visible-agree i) (get_path-agree i) (set_path-agree i)

  prune_loop-agree :
      (fuel : ℕ) (fields : List (FieldSpec K R)) (o : JsonObject)
      → prune_loop fuel fields o ≡ Policy.prune_loop fuel fields o
  unfolding prune_loop Policy.prune_loop Policy.prune_pass
  prune_loop-agree zero fields o = refl
  prune_loop-agree (suc fuel) fields o =
      let here = reduce prune_field (o, false) fields in
      let same : here ≡ reduce Policy.prune_field (o, false) fields =
        λ i. reduce (prune_field-agree i) (o, false) fields in
      ap (λ rest. if here.1 then rest else some here.0) (prune_loop-agree fuel fields here.0)
      ∙ ap (λ r. if r.1 then Policy.prune_loop fuel fields r.0 else some r.0) same

  -- `pruneInvisibleFields` is the same function as `pruneInvisiblePolicyFields`, for every table of
  -- fields and every object.
  pub prune_invisible_fields-agree :
      prune_invisible_fields {K = K} {R = R} ≡ Policy.prune_invisible_policy_fields
  unfolding prune_invisible_fields Policy.prune_invisible_policy_fields
  prune_invisible_fields-agree = λ i o fields.
      or_else
        (fun_ext {B = λ x. Option JsonObject} (λ x. prune_loop-agree (suc (length fields)) fields x)
          i o)
        o
