-- ===== src/Policy/Editor/RouteRules.antt =====
-- ui/src/features/policy/route-visual-editor.tsx: the actions of RouteVisualEditor and its
-- RuleSection on the route object and the metadata of its rules.
pub mod Paired
use boxui.Base.{
  ℕ, suc, String, Bool, true, false, Option, none, some, List, [], ◌∷◌, get_elem?, or_else, map,
}
use boxui.Json.{JsonObject}
use boxui.Policy.Route.Lists.{route_rules, route_rule_sets, set_route_rules, set_route_rule_sets}
use boxui.Policy.Editor.Items.{Direction, replace_or_append, remove_at, insert_copy, move_item}

-- ui/src/lib/api/types.ts
pub record RouteRuleMetadata : Type 0 where
  pub name : String
  pub description : String

abbrev pub empty_metadata : RouteRuleMetadata
empty_metadata = record { name = ""; description = "" }

-- `rules.map((_, index) => metadata[index] ?? emptyMetadata())`
unfoldable pub aligned_metadata : List JsonObject → List RouteRuleMetadata → List RouteRuleMetadata
aligned_metadata [] metadata = []
aligned_metadata (r ∷ rules) [] = empty_metadata ∷ aligned_metadata rules []
aligned_metadata (r ∷ rules) (m ∷ metadata) = m ∷ aligned_metadata rules metadata

-- What the page holds: the route object and the metadata of its rules.
pub record RoutePage : Type 0 where
  pub object : JsonObject
  pub metadata : List RouteRuleMetadata

-- The buttons of a rule's card, and the dialog's save, with its index `none` for a new rule.
pub data RuleAction : Type 0 where
  copy : ℕ → RuleAction
  move : ℕ → Direction → RuleAction
  delete_rule : ℕ → RuleAction
  save : Option ℕ → JsonObject → Option RouteRuleMetadata → RuleAction

-- `updateBoth`
unfoldable pub update_both : RoutePage → List JsonObject → List RouteRuleMetadata → RoutePage
update_both page rules metadata = record {
  object = set_route_rules page.object rules;
  metadata = metadata;
}

-- The action on the rules and the aligned metadata that the editor shows.
unfoldable pub act_on :
    RoutePage → List JsonObject → List RouteRuleMetadata → RuleAction → RoutePage
unfolding update_both replace_or_append remove_at insert_copy move_item
act_on page rules metadata (copy i) =
    update_both page (insert_copy rules i) (insert_copy metadata i)
act_on page rules metadata (move i d) =
    update_both page (move_item rules i d) (move_item metadata i d)
act_on page rules metadata (delete_rule i) =
    update_both page (remove_at rules i) (remove_at metadata i)
act_on page rules metadata (save index item meta) =
    update_both page (replace_or_append rules index item)
      (replace_or_append metadata index (or_else meta empty_metadata))

unfoldable pub act : RoutePage → RuleAction → RoutePage
unfolding act_on aligned_metadata
act page action =
    let rules = route_rules page.object in
    act_on page rules (aligned_metadata rules page.metadata) action

-- `saveSelection` of a rule set
unfoldable pub save_rule_set : RoutePage → Option ℕ → JsonObject → RoutePage
unfolding replace_or_append
save_rule_set page index item = record page {
  object =
      set_route_rule_sets page.object (replace_or_append (route_rule_sets page.object) index item);
}
