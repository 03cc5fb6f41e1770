-- ===== src/Policy/Route/Change/Tables.antt =====
-- The known fields of the route dialogs lie apart from one another and from the keys that a change
-- sets: facts of the tables, by evaluation.
use boxui.Base.{
  String, Bool, true, false, List, ◌≡◌, refl, All, every, every-All, All-map_imp, arith, not, ◌&&◌,
}
use boxui.Text.{split_dots}
use boxui.Policy.Kinds.{PolicyFieldSpec}
use boxui.Policy.FormModel.Paths.{overlaps}
use boxui.Policy.FormModel.Access.{clashes}
use boxui.Policy.Route.Fields.{
  route_match_fields, rule_type_fields, route_action_fields, rule_set_fields,
}
use boxui.Policy.FormModel.Carried.{are_distinct}
use boxui.Policy.Route.Transition.Fits.{path_of, kind_of}
use boxui.Policy.Route.Change.{known_rule_fields, known_action_fields, known_rule_set_fields}
use boxui.Policy.FormModel.Sieve.{
  Apart, apart_keys, split_paths, apart_from, apart_keys-Apart, apart_from-All,
}
use boxui.Policy.Route.Transition.Exact.{field_path}

rule_fields_test :
    (apart_keys (split_paths field_path known_rule_fields) ≡ true)
    × (apart_from (split_dots "type") (split_paths field_path known_rule_fields) ≡ true)
unfolding apart_keys apart_from known_rule_fields split_dots
rule_fields_test = (refl, refl)

pub known_rule_fields-Apart : Apart field_path known_rule_fields
known_rule_fields-Apart = apart_keys-Apart field_path known_rule_fields rule_fields_test.0

pub type-apart-rule_fields : All (λ f. clashes "type" f.path ≡ false) known_rule_fields
type-apart-rule_fields = (apart_from-All field_path "type" known_rule_fields rule_fields_test.1).0

action_fields_test :
    (apart_keys (split_paths field_path known_action_fields) ≡ true)
    × (apart_from (split_dots "action") (split_paths field_path known_action_fields) ≡ true)
unfolding apart_keys apart_from known_action_fields split_dots
action_fields_test = (refl, refl)

pub known_action_fields-Apart : Apart field_path known_action_fields
known_action_fields-Apart = apart_keys-Apart field_path known_action_fields action_fields_test.0

pub action-apart-action_fields : All (λ f. clashes "action" f.path ≡ false) known_action_fields
action-apart-action_fields =
    (apart_from-All field_path "action" known_action_fields action_fields_test.1).0

rule_set_fields_test :
    (apart_keys (split_paths field_path known_rule_set_fields) ≡ true)
    × (apart_from (split_dots "type") (split_paths field_path known_rule_set_fields) ≡ true)
unfolding apart_keys apart_from known_rule_set_fields split_dots
rule_set_fields_test = (refl, refl)

pub known_rule_set_fields-Apart : Apart field_path known_rule_set_fields
known_rule_set_fields-Apart =
    apart_keys-Apart field_path known_rule_set_fields rule_set_fields_test.0

pub type-apart-rule_set_fields : All (λ f. clashes "type" f.path ≡ false) known_rule_set_fields
type-apart-rule_set_fields =
    (apart_from-All field_path "type" known_rule_set_fields rule_set_fields_test.1).0

-- A match field, against "action" and every action field.
abbrev is_match_apart : List (List String) → PolicyFieldSpec → Bool
is_match_apart known f =
    apart_from (split_dots f.path) known && not (overlaps (split_dots "action") (split_dots f.path))

match_fields_test :
    every (is_match_apart (split_paths field_path known_action_fields)) route_match_fields ≡ true
unfolding apart_from known_action_fields split_dots
match_fields_test = refl

-- Neither "action" nor an action field touches the field.
abbrev pub IsUntouched : PolicyFieldSpec → Type 0
IsUntouched f =
    (clashes "action" f.path ≡ false) × All (λ g. clashes g.path f.path ≡ false) known_action_fields

is_match_apart-IsUntouched :
    (f : PolicyFieldSpec)
    → is_match_apart (split_paths field_path known_action_fields) f ≡ true
    → IsUntouched f
unfolding clashes
is_match_apart-IsUntouched f h =
    (ground arith, (apart_from-All field_path f.path known_action_fields (ground arith)).1)

-- Every match field lies apart from "action" and from the fields of the actions.
pub match_fields-IsUntouched : All IsUntouched route_match_fields
match_fields-IsUntouched = All-map_imp _ IsUntouched is_match_apart-IsUntouched route_match_fields (
    every-All (is_match_apart (split_paths field_path known_action_fields)) route_match_fields
      match_fields_test)

-- No type, action or rule set type has two fields of one path.
pub rule_type_fields-distinct :
    every (λ entry. are_distinct path_of kind_of entry.1) rule_type_fields ≡ true
rule_type_fields-distinct = refl

pub route_action_fields-distinct :
    every (λ entry. are_distinct path_of kind_of entry.1) route_action_fields ≡ true
route_action_fields-distinct = refl

pub rule_set_fields-distinct :
    every (λ entry. are_distinct path_of kind_of entry.1) rule_set_fields ≡ true
rule_set_fields-distinct = refl
