-- ===== src/Nodes.antt =====
-- ui/src/features/nodes: groupSubscriptions of nodes-page.tsx, node-test-inputs.ts, and flatten of
-- node-results-card.tsx. A Map is an association list in the order of insertion.
pub mod Groups
use boxui.Base.{
  ℕ, String, Bool, true, false, Option, none, some, List, [], ◌∷◌, ◌++◌, ◌==◌, map, reduce, or_else,
  keep, nat_eq, if◌then◌else◌,
}
use boxui.Text.Trim.{is_blank}

pub data NodeSource : Type 0 where
  import_source subscription : NodeSource

-- ui/src/lib/api/types.ts, without the raw configuration
pub record Outbound : Type 0 where
  pub tag : String
  pub type : String
  pub server : Option String
  pub port : Option ℕ
  pub source : Option NodeSource
  pub source_name : Option String

abbrev pub is_subscription : Option NodeSource → Bool
is_subscription (some subscription) = true
is_subscription (some import_source) = false
is_subscription none = false

-- `node.source_name || ""`
abbrev pub group_name : Outbound → String
group_name node = or_else node.source_name ""

-- `groups.set(name, [...(groups.get(name) ?? []), node])`
unfoldable pub add_to_group :
    List (String × List Outbound) → String → Outbound → List (String × List Outbound)
add_to_group [] name node = (name, node ∷ []) ∷ []
add_to_group ((other, nodes) ∷ groups) name node =
    if other == name
    then (other, nodes ++ node ∷ []) ∷ groups
    else (other, nodes) ∷ add_to_group groups name node

abbrev pub group_step : List (String × List Outbound) → Outbound → List (String × List Outbound)
group_step groups node =
    if is_subscription node.source then add_to_group groups (group_name node) node else groups

unfoldable pub group_subscriptions : List Outbound → List (String × List Outbound)
unfolding reduce add_to_group
group_subscriptions nodes = reduce group_step [] nodes

pub data NodeTestType : Type 0 where
  tcp http icmp : NodeTestType

abbrev pub node_test_types : List NodeTestType
node_test_types = tcp ∷ http ∷ icmp ∷ []

-- ui/src/lib/api/endpoints.ts
pub record TestInput : Type 0 where
  pub tag : String
  pub test_type : NodeTestType
  pub server : String
  pub port : ℕ

-- A server that is not empty and a port that is not 0.
abbrev pub input_of : String → NodeTestType → Option String → Option ℕ → Option TestInput
input_of tag type none port = none
input_of tag type (some server) none = none
input_of tag type (some server) (some port) =
    if is_blank server
    then none
    else if nat_eq port 0
    then none
    else some (record { tag = tag; test_type = type; server = server; port = port })

unfoldable pub node_test_input : Outbound → NodeTestType → Option TestInput
node_test_input node type = input_of node.tag type node.server node.port

-- `input ? [input] : []`
abbrev pub list_of : Option TestInput → List TestInput
list_of none = []
list_of (some input) = input ∷ []

abbrev pub inputs_of_types : Outbound → List NodeTestType → List TestInput
inputs_of_types node [] = []
inputs_of_types node (type ∷ types) =
    list_of (node_test_input node type) ++ inputs_of_types node types

unfoldable pub node_test_inputs : List Outbound → List TestInput
unfolding node_test_input
node_test_inputs [] = []
node_test_inputs (node ∷ nodes) = inputs_of_types node node_test_types ++ node_test_inputs nodes
