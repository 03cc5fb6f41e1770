-- ===== src/Policy/Editor/RouteRules/Paired.antt =====
-- The route editor keeps each rule with its name and description.
use boxui.Base.{List, [], ◌∷◌, ◌≡◌, refl, sym, ap, ◌∙◌, map, or_else}
use boxui.Json.{JsonObject}
use boxui.Policy.Route.Lists.{route_rules}
use boxui.Policy.Route.Lists.RoundTrip.{route_rules-set_route_rules}
use boxui.Policy.Editor.Items.{replace_or_append, remove_at, insert_copy, move_item}
use boxui.Policy.Editor.Items.Laws.{
  map-replace_or_append, map-remove_at, map-insert_copy, map-move_item,
}
use boxui.Policy.Editor.RouteRules.{
  RouteRuleMetadata, empty_metadata, aligned_metadata, RoutePage, RuleAction, copy, move,
  delete_rule, save, update_both, act_on, act,
}

-- A rule and its metadata, as a user sees them on one card.
abbrev pub NamedRule : Type 0
NamedRule = JsonObject × RouteRuleMetadata

abbrev pub rule_of : NamedRule → JsonObject
rule_of r = r.0

abbrev pub metadata_of : NamedRule → RouteRuleMetadata
metadata_of r = r.1

-- What an action does to the cards.
unfoldable pub act_on_cards : List NamedRule → RuleAction → List NamedRule
act_on_cards cards (copy i) = insert_copy cards i
act_on_cards cards (move i d) = move_item cards i d
act_on_cards cards (delete_rule i) = remove_at cards i
act_on_cards cards (save index item meta) =
    replace_or_append cards index (item, or_else meta empty_metadata)

-- The cards of a page.
unfoldable pub pair_up : List JsonObject → List RouteRuleMetadata → List NamedRule
pair_up [] metadata = []
pair_up (r ∷ rules) [] = (r, empty_metadata) ∷ pair_up rules []
pair_up (r ∷ rules) (m ∷ metadata) = (r, m) ∷ pair_up rules metadata

unfoldable pub cards : RoutePage → List NamedRule
unfolding pair_up
cards page = pair_up (route_rules page.object) page.metadata

pair_up-rules :
    (rules : List JsonObject) (ms : List RouteRuleMetadata) → map rule_of (pair_up rules ms) ≡ rules
unfolding pair_up
pair_up-rules [] ms = refl
pair_up-rules (r ∷ rules) [] = rw (pair_up-rules rules []) refl
pair_up-rules (r ∷ rules) (m ∷ ms) = rw (pair_up-rules rules ms) refl

pair_up-metadata :
    (rules : List JsonObject) (ms : List RouteRuleMetadata)
    → map metadata_of (pair_up rules ms) ≡ aligned_metadata rules ms
unfolding pair_up aligned_metadata
pair_up-metadata [] ms = refl
pair_up-metadata (r ∷ rules) [] = rw (pair_up-metadata rules []) refl
pair_up-metadata (r ∷ rules) (m ∷ ms) = rw (pair_up-metadata rules ms) refl

pair_up-parts : (ps : List NamedRule) → pair_up (map rule_of ps) (map metadata_of ps) ≡ ps
unfolding pair_up
pair_up-parts [] = refl
pair_up-parts (p ∷ ps) = rw (pair_up-parts ps) refl

-- The action on the two lists is the action on the cards, list by list.
act_on-parts :
    (page : RoutePage) (ps : List NamedRule) (action : RuleAction)
    → act_on page (map rule_of ps) (map metadata_of ps) action
      ≡ update_both page
          (map rule_of (act_on_cards ps action))
          (map metadata_of (act_on_cards ps action))
unfolding act_on act_on_cards
act_on-parts page ps (copy i) =
    rw (map-insert_copy rule_of ps i, map-insert_copy metadata_of ps i) refl
act_on-parts page ps (move i d) =
    rw (map-move_item rule_of ps i d, map-move_item metadata_of ps i d) refl
act_on-parts page ps (delete_rule i) =
    rw (map-remove_at rule_of ps i, map-remove_at metadata_of ps i) refl
act_on-parts page ps (save index item meta) =
    rw
      (
        map-replace_or_append rule_of ps index (item, or_else meta empty_metadata),
        map-replace_or_append metadata_of ps index (item, or_else meta empty_metadata),
      )
      refl

cards-update_both :
    (page : RoutePage) (ps : List NamedRule)
    → cards (update_both page (map rule_of ps) (map metadata_of ps)) ≡ ps
unfolding cards update_both
cards-update_both page ps =
    rw ((route_rules-set_route_rules page.object (map rule_of ps)).0) (pair_up-parts ps)

act-parts :
    (page : RoutePage) (action : RuleAction)
    → act page action
      ≡ update_both page
          (map rule_of (act_on_cards (cards page) action))
          (map metadata_of (act_on_cards (cards page) action))
unfolding act cards
act-parts page action =
    rw
      (
        sym (act_on-parts page (pair_up (route_rules page.object) page.metadata) action),
        pair_up-rules (route_rules page.object) page.metadata,
        pair_up-metadata (route_rules page.object) page.metadata,
      )
      refl

-- Copying, moving, deleting and saving rules in the route editor acts on the pairs of a rule and its
-- metadata as one list: no action separates a rule from its name and description, whatever metadata
-- the page held before.
pub cards-act :
    (page : RoutePage) (action : RuleAction)
    → cards (act page action) ≡ act_on_cards (cards page) action
cards-act page action =
    ap cards (act-parts page action) ∙ cards-update_both page (act_on_cards (cards page) action)
