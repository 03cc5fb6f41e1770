-- ===== src/Tests/Editors.antt =====
-- Numbers, lists, rules with their metadata, and sections at concrete objects.
use mathlib.Core.List.{Permᴰ}
use boxui.Base.{
  String, true, false, Option, none, some, List, [], ◌∷◌, ◌==◌, ◌≡◌, refl, arith, includes, or_else,
  if◌then◌else◌, Memᴰ,
}
use boxui.Text.{decimal}
use boxui.Text.Trim.{trim, is_white}
use boxui.Text.Digits.{is_digits, digits_value}
use boxui.Json.{
  Number, infinite, string, number, natural, array, nil, cons, object, JsonObject, empty, property,
  lookup,
}
use boxui.Form.{field, table_get}
use boxui.Policy.Kinds.{PolicyFieldKind, PolicyFieldSpec}
use boxui.Policy.FormModel.{set_policy_path}
use boxui.Policy.FormModel.Tags.{PolicySection}
use boxui.Policy.Dialog.{TransformResult}
use boxui.Policy.Dns.ServerFields.{dns_server_fields}
use boxui.Policy.Number.{
  PolicyNumberConstraint, integer, mark, constrained, constraint_of, create_policy_number_transform,
}
use boxui.Policy.Number.Bounds.{IsWithin, StoresWithin, create_policy_number_transform-StoresWithin}
use boxui.Policy.Number.Printed.{constrained-decimal}
use boxui.Policy.Number.Forms.{
  route_number_constraints, query_type_names, transform_query_type, strings, text_value,
  update_kind, default_policy_field_update,
}
use boxui.Policy.Number.Forms.Stored.{StoresCode, transform_query_type-StoresCode}
use boxui.Policy.Number.Forms.Listed.{
  IsToken, AllTokens, is_unseparated, default_policy_field_update-shown,
}
use boxui.Policy.Editor.Items.{up, down, move_item}
use boxui.Policy.Editor.Items.Moves.{move_item-perm}
use boxui.Policy.Editor.RouteRules.{RoutePage, move, act}
use boxui.Policy.Editor.RouteRules.Paired.{cards, act_on_cards, cards-act}
use boxui.Policy.Editor.Saved.{
  list_keys, object_or_empty, or_value, save_global, persist_rules, section_key, section_of,
  lookup-save_global, lookup-persist_rules,
}
use boxui.Policy.Dialog.Sections.Covered.{is_shown, server_fields-covered}
use boxui.Proxy.Kinds.{FieldKind}
use boxui.Proxy.Update.{update_proxy_kind}
use boxui.Proxy.Update.Agreement.{finite_number, same_update, update_proxy_kind-agree}
use boxui.Nodes.{Outbound, subscription, group_subscriptions}
use boxui.Nodes.Groups.{group_of, nodes_named, group_of-group_subscriptions}

abbrev port_field : PolicyFieldSpec
port_field = field "override_port" "overridePort" (some PolicyFieldKind.number) none

abbrev port_constraint : PolicyNumberConstraint
port_constraint = record { kind = integer; maximum = 65535; allowed = none; field_kind = none }

abbrev mark_field : PolicyFieldSpec
mark_field = field "default_mark" "defaultMark" none none

abbrev mark_constraint : PolicyNumberConstraint
mark_constraint = record { kind = mark; maximum = 4294967295; allowed = none; field_kind = none }

mark_constrained : constraint_of route_number_constraints mark_field.path ≡ some mark_constraint
unfolding constraint_of
mark_constrained = refl

-- A hexadecimal mark is stored as its text.
mark_stored :
    create_policy_number_transform route_number_constraints empty mark_field " 0x1F "
    ≡ TransformResult.transformed (set_policy_path empty "default_mark" (some (string "0x1F")))
unfolding create_policy_number_transform trim is_white is_digits digits_value
mark_stored = refl

mark-StoresWithin_example :
    StoresWithin mark_constraint empty mark_field.path
      (create_policy_number_transform route_number_constraints empty mark_field " 0x1F ")
mark-StoresWithin_example =
    create_policy_number_transform-StoresWithin route_number_constraints empty mark_field
      mark_constraint " 0x1F " mark_constrained

port-IsWithin : IsWithin port_constraint 8080
unfolding IsWithin
port-IsWithin = (omega arith, omega arith, refl)

port_printed_example :
    constrained port_constraint empty "override_port" (decimal 8080)
    ≡ TransformResult.transformed
        (set_policy_path empty "override_port" (some (number (natural 8080))))
port_printed_example =
    constrained-decimal 8080 port_constraint empty "override_port" refl port-IsWithin

abbrev as_it_is : String → String
as_it_is s = s

query-StoresCode_example :
    StoresCode 65535 query_type_names empty "query_type"
      (transform_query_type as_it_is empty "A, 28")
query-StoresCode_example = transform_query_type-StoresCode as_it_is empty "A, 28"

abbrev no_number : String → Option Number
no_number s = none

abbrev domain_field : PolicyFieldSpec
domain_field = field "domain" "domain" (some PolicyFieldKind.list) none

domain_tokens : AllTokens ("a.example" ∷ "b.example" ∷ [])
unfolding IsToken is_unseparated trim is_white
domain_tokens = ((refl, refl, refl), ((refl, refl, refl), tt))

domain_shown_example :
    default_policy_field_update no_number empty domain_field
      (text_value (some (strings ("a.example" ∷ "b.example" ∷ []))))
    ≡ some
        (set_policy_path empty domain_field.path (some (strings ("a.example" ∷ "b.example" ∷ []))))
domain_shown_example =
    default_policy_field_update-shown no_number empty domain_field "a.example" ("b.example" ∷ [])
      refl domain_tokens

-- Two rules, of which the first has a name.
abbrev rule : String → JsonObject
rule outbound = property "outbound" (string outbound) empty

abbrev page : RoutePage
page = record {
  object = property "rules" (array (cons (object (rule "a")) (cons (object (rule "b")) nil))) empty;
  metadata = record { name = "first"; description = "" } ∷ [];
}

cards_example : cards (act page (move 0 down)) ≡ act_on_cards (cards page) (move 0 down)
cards_example = cards-act page (move 0 down)

abbrev letters : List String
letters = "a" ∷ "b" ∷ "c" ∷ []

move_example : Permᴰ (move_item letters 1 up) letters
move_example = move_item-perm letters 1 up

abbrev saved_route : JsonObject
saved_route = property "rules" (array nil) (property "final" (string "direct") empty)

abbrev edited_route : JsonObject
edited_route =
    property "rules" (array (cons (object (rule "a")) nil))
      (property "final" (string "proxy") empty)

save_global_example :
    lookup "rules" (save_global PolicySection.route (object saved_route) edited_route) ≡ (
      if includes (list_keys PolicySection.route) "rules"
      then or_value
          (lookup "rules" (object_or_empty (object saved_route)))
          (lookup "rules" edited_route)
      else lookup "rules" edited_route)
save_global_example =
    lookup-save_global PolicySection.route (object saved_route) edited_route "rules"

abbrev saved_config : JsonObject
saved_config = property "route" (object saved_route) (property "log" (object empty) empty)

persist_rules_example :
    (lookup "final" (
        section_of (
          lookup
            (section_key PolicySection.route)
            (persist_rules PolicySection.route (object saved_route) saved_config edited_route)))
      ≡ (if includes (list_keys PolicySection.route) "final"
          then or_value
              (lookup "final" edited_route)
              (lookup "final" (object_or_empty (object saved_route)))
          else lookup "final" (object_or_empty (object saved_route))))
    × (section_key PolicySection.route == "log" ≡ false
        → lookup "log"
            (persist_rules PolicySection.route (object saved_route) saved_config edited_route)
          ≡ lookup "log" saved_config)
persist_rules_example =
    lookup-persist_rules PolicySection.route (object saved_route) saved_config edited_route "final"
      "log"

abbrev path_field : PolicyFieldSpec
path_field = field "path" "path" (some PolicyFieldKind.list) (some "hosts")

path_listed : Memᴰ path_field (or_else (table_get dns_server_fields "hosts") [])
unfolding table_get
path_listed = Memᴰ.head refl

path_covered_example : is_shown "hosts" path_field ≡ true
path_covered_example = server_fields-covered "hosts" path_field path_listed

abbrev node : Outbound
node = record {
  tag = "n";
  type = "vmess";
  server = none;
  port = none;
  source = some subscription;
  source_name = some "s";
}

groups_example : group_of (group_subscriptions (node ∷ [])) "s" ≡ nodes_named "s" (node ∷ [])
groups_example = group_of-group_subscriptions (node ∷ []) "s"

-- `Number` on the text of one port; any other text is not a number.
abbrev port_number : String → Number
port_number s = if s == "443" then natural 443 else infinite "NaN"

port_number-agree_example :
    update_proxy_kind port_number (some FieldKind.number) empty "listen_port" "443"
    ≡ update_kind
        (finite_number port_number)
        (same_update (some FieldKind.number))
        empty
        "listen_port"
        "443"
port_number-agree_example =
    update_proxy_kind-agree port_number (some FieldKind.number) empty "listen_port" "443"
      λ _ _. refl
