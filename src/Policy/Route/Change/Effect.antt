-- ===== src/Policy/Route/Change/Effect.antt =====
-- What `changeRouteRuleType`, `changeRouteAction` and `changeRuleSetType` do to a rule.
use boxui.Base.{
  not, ◌&&◌, String, false, ◌≡◌, ◌≢◌, ◌==◌, eq_iff, Memᴰ, All, All-mem, Bool-cases, inl, inr, sym,
  subst,
}
use boxui.Json.{JsonObject}
use boxui.Json.Print.{to_string, coalesce}
use boxui.Policy.Kinds.{PolicyFieldSpec}
use boxui.Policy.FormModel.{get_policy_path}
use boxui.Policy.FormModel.Access.{clashes}
use boxui.Policy.Route.Fields.{route_match_fields, rule_type_fields, rule_set_fields}
use boxui.Policy.Route.Transition.{field_transition, compatible_fields}
use boxui.Policy.Route.Transition.Exact.{retained, set-transition-exact, set-transition-frame}
use boxui.Policy.FormModel.Carried.{table-IsDistinct}
use boxui.Policy.Route.Transition.Fits.{path_of, kind_of, IsCarried, retained-IsCarried}
use boxui.Policy.Route.Change.{
  known_rule_fields, known_action_fields, known_rule_set_fields, text_at, change_route_rule_type,
  change_route_action, change_rule_set_type,
}
use boxui.Policy.Route.Change.Keys.{
  lookup-set-type, lookup-set-action, &&-left, ne-false, to_string-type, to_string-action,
}
use boxui.Policy.Route.Change.Tables.{
  known_rule_fields-Apart, type-apart-rule_fields, known_rule_set_fields-Apart,
  type-apart-rule_set_fields, IsUntouched, match_fields-IsUntouched, rule_type_fields-distinct,
  rule_set_fields-distinct,
}

change_route_rule_type-same :
    (rule : JsonObject) (type : String)
    → text_at "type" "default" rule ≡ type
    → change_route_rule_type rule type ≡ rule
unfolding change_route_rule_type
change_route_rule_type-same rule type h = rw ((eq_iff _ type).1 h)

-- After a change of type a rule reads as of that type, whatever it was before.
pub text_at-change_route_rule_type :
    (rule : JsonObject) (type : String)
    → text_at "type" "default" (change_route_rule_type rule type) ≡ type
unfolding change_route_rule_type text_at to_string
text_at-change_route_rule_type rule type =
    elim (Bool-cases (text_at "type" "default" rule == type)) [
      | inl same ↦ rw same ((eq_iff _ type).0 same)
      | inr other ↦ rw (other, lookup-set-type) (to_string-type type)
    ]

-- After a change of action a rule reads as of that action, also where the action is cleared.
pub text_at-change_route_action :
    (rule : JsonObject) (action : String)
    → text_at "action" "" (change_route_action rule action) ≡ action
unfolding change_route_action text_at
text_at-change_route_action rule action =
    elim (Bool-cases (text_at "action" "" rule == action && not (text_at "action" "" rule == ""))) [
      | inl same ↦ rw same ((eq_iff _ action).0 (&&-left _ _ same))
      | inr other ↦ rw (other, lookup-set-action) (to_string-action action)
    ]

-- After a change of type a rule set reads as of that type.
pub text_at-change_rule_set_type :
    (rule_set : JsonObject) (type : String)
    → text_at "type" "inline" (change_rule_set_type rule_set type) ≡ type
unfolding change_rule_set_type text_at to_string coalesce
text_at-change_rule_set_type rule_set type =
    elim (Bool-cases (text_at "type" "inline" rule_set == type)) [
      | inl same ↦ rw same ((eq_iff _ type).0 same)
      | inr other ↦ rw (other, lookup-set-type)
    ]

-- A second change to the same type changes nothing.
pub change_route_rule_type_idempotent :
    (rule : JsonObject) (type : String)
    → change_route_rule_type (change_route_rule_type rule type) type
      ≡ change_route_rule_type rule type
change_route_rule_type_idempotent rule type =
    change_route_rule_type-same (change_route_rule_type rule type) type
      (text_at-change_route_rule_type rule type)

change_route_rule_type-retained :
    (rule : JsonObject) (type : String) (f : PolicyFieldSpec)
    → text_at "type" "default" rule ≢ type
    → Memᴰ f known_rule_fields
    → get_policy_path (change_route_rule_type rule type) f.path
      ≡ retained
          (compatible_fields
            (field_transition rule_type_fields (text_at "type" "default" rule) type))
          f
          (get_policy_path rule f.path)
unfolding change_route_rule_type
change_route_rule_type-retained rule type f changes m = rw (ne-false _ type changes) (
    set-transition-exact rule known_rule_fields _ "type" _ f type-apart-rule_fields
      known_rule_fields-Apart m)

-- Where the type changes, each field known to some type keeps its value exactly if the new type has
-- the field and the value fits its kind, and the old type, where it is a known one, has it with the
-- same kind.
pub change_route_rule_type-exact :
    (rule : JsonObject) (type : String) (f : PolicyFieldSpec)
    → text_at "type" "default" rule ≢ type
    → Memᴰ f known_rule_fields
    → IsCarried rule_type_fields
        (text_at "type" "default" rule)
        type
        f.path
        (get_policy_path rule f.path)
        (get_policy_path (change_route_rule_type rule type) f.path)
change_route_rule_type-exact rule type f changes m =
    subst
      (IsCarried rule_type_fields (text_at "type" "default" rule) type f.path
        (get_policy_path rule f.path))
      (sym (change_route_rule_type-retained rule type f changes m))
      (retained-IsCarried rule_type_fields (text_at "type" "default" rule) type f
        (get_policy_path rule f.path)
        (table-IsDistinct path_of kind_of rule_type_fields type rule_type_fields-distinct))

-- A path apart from the known fields and from the type keeps its value.
pub change_route_rule_type-frame :
    (rule : JsonObject) (type q : String)
    → clashes "type" q ≡ false
    → All (λ f. clashes f.path q ≡ false) known_rule_fields
    → get_policy_path (change_route_rule_type rule type) q ≡ get_policy_path rule q
unfolding change_route_rule_type
change_route_rule_type-frame rule type q h hs =
    elim (Bool-cases (text_at "type" "default" rule == type)) [
      | inl same ↦ rw same
      | inr other ↦ rw other (set-transition-frame rule known_rule_fields _ "type" _ q h hs)
    ]

-- A change of action leaves every match condition of the rule as it is.
pub change_route_action-match_fields :
    (rule : JsonObject) (action : String) (f : PolicyFieldSpec)
    → Memᴰ f route_match_fields
    → get_policy_path (change_route_action rule action) f.path ≡ get_policy_path rule f.path
unfolding change_route_action
change_route_action-match_fields rule action f m =
    let (h, hs) = All-mem IsUntouched route_match_fields match_fields-IsUntouched m in
    elim (Bool-cases (text_at "action" "" rule == action && not (text_at "action" "" rule == ""))) [
      | inl same ↦ rw same
      | inr other ↦
          rw other (set-transition-frame rule known_action_fields _ "action" _ f.path h hs)
    ]

change_rule_set_type-retained :
    (rule_set : JsonObject) (type : String) (f : PolicyFieldSpec)
    → text_at "type" "inline" rule_set ≢ type
    → Memᴰ f known_rule_set_fields
    → get_policy_path (change_rule_set_type rule_set type) f.path
      ≡ retained
          (compatible_fields
            (field_transition rule_set_fields (text_at "type" "inline" rule_set) type))
          f
          (get_policy_path rule_set f.path)
unfolding change_rule_set_type
change_rule_set_type-retained rule_set type f changes m = rw (ne-false _ type changes) (
    set-transition-exact rule_set known_rule_set_fields _ "type" _ f type-apart-rule_set_fields
      known_rule_set_fields-Apart m)

-- Where the type changes, each field known to some rule set type keeps its value exactly if the new
-- type has the field and the value fits its kind, and the old type, where it is a known one, has it
-- with the same kind.
pub change_rule_set_type-exact :
    (rule_set : JsonObject) (type : String) (f : PolicyFieldSpec)
    → text_at "type" "inline" rule_set ≢ type
    → Memᴰ f known_rule_set_fields
    → IsCarried rule_set_fields
        (text_at "type" "inline" rule_set)
        type
        f.path
        (get_policy_path rule_set f.path)
        (get_policy_path (change_rule_set_type rule_set type) f.path)
change_rule_set_type-exact rule_set type f changes m =
    subst
      (IsCarried rule_set_fields (text_at "type" "inline" rule_set) type f.path
        (get_policy_path rule_set f.path))
      (sym (change_rule_set_type-retained rule_set type f changes m))
      (retained-IsCarried rule_set_fields (text_at "type" "inline" rule_set) type f
        (get_policy_path rule_set f.path)
        (table-IsDistinct path_of kind_of rule_set_fields type rule_set_fields-distinct))
