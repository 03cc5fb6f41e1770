-- ===== src/Policy/Route/Lists/RoundTrip.antt =====
-- Writing a list of rules and reading it back, for routes and for DNS.
use boxui.Base.{String, some, List, [], ◌∷◌, ◌≡◌, refl, ap, eq_refl}
use boxui.Json.{array, JsonObject, lookup, insert}
use boxui.Json.Laws.{lookup-insert}
use boxui.Policy.Route.Lists.{
  filter_objects, object_items, array_of, route_rules, route_rule_sets, set_route_rules,
  set_route_rule_sets,
}

pub object_items-array_of : (os : List JsonObject) → object_items (some (array (array_of os))) ≡ os
unfolding object_items filter_objects array_of
object_items-array_of [] = refl
object_items-array_of (o ∷ os) = ap (λ rest. o ∷ rest) (object_items-array_of os)

-- The list that is stored under a key is read back from there.
pub object_items-insert :
    (key : String) (os : List JsonObject) (o : JsonObject)
    → object_items (lookup key (insert key (array (array_of os)) o)) ≡ os
object_items-insert key os o = rw (lookup-insert, eq_refl key) (object_items-array_of os)

-- The rules that are set are read back, and the rule sets stay as they are.
pub route_rules-set_route_rules :
    (o : JsonObject) (rules : List JsonObject)
    → (route_rules (set_route_rules o rules) ≡ rules)
      × (route_rule_sets (set_route_rules o rules) ≡ route_rule_sets o)
unfolding route_rules route_rule_sets set_route_rules
route_rules-set_route_rules o rules = (
  object_items-insert "rules" rules o,
  ap object_items (lookup-insert "rules" "rule_set" (array (array_of rules)) o),
)

-- The rule sets that are set are read back, and the rules stay as they are.
pub route_rule_sets-set_route_rule_sets :
    (o : JsonObject) (rule_sets : List JsonObject)
    → (route_rule_sets (set_route_rule_sets o rule_sets) ≡ rule_sets)
      × (route_rules (set_route_rule_sets o rule_sets) ≡ route_rules o)
unfolding route_rules route_rule_sets set_route_rule_sets
route_rule_sets-set_route_rule_sets o rule_sets = (
  object_items-insert "rule_set" rule_sets o,
  ap object_items (lookup-insert "rule_set" "rules" (array (array_of rule_sets)) o),
)
