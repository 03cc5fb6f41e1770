-- ===== src/Tests/Policy.antt =====
-- The policy forms: pruning, writing to a path, and changing the type of a rule or a server.
use boxui.Base.{suc, true, false, none, some, List, [], ◌∷◌, ◌≡◌, ◌⊎◌, inl, inr, refl, All, length}
use boxui.Json.{boolean, string, object, JsonObject, empty, property}
use boxui.Form.{field, with_when, when_set}
use boxui.Policy.Kinds.{PolicyFieldKind, PolicyFieldSpec}
use boxui.Policy.FormModel.{get_policy_path, prune_loop, prune_invisible_policy_fields}
use boxui.Policy.FormModel.Access.{clashes, lies_below}
use boxui.Policy.FormModel.Prune.{
  prune_loop_terminates, prune-IsSettled, prune-Shrinks, Spares, prune-Spares, IsSettled, Shrinks,
}

-- The first field waits for the second and the second for the third, so that the loop takes three
-- passes.
abbrev chain : List PolicyFieldSpec
chain =
    with_when (when_set "tls.ech" ∷ []) (field "tls.pin" "pin" none none)
    ∷ with_when (when_set "tls.enabled" ∷ [])
        (field "tls.ech" "ech" (some PolicyFieldKind.boolean) none)
    ∷ field "tls.enabled" "enabled" (some PolicyFieldKind.boolean) none
    ∷ []

abbrev hidden_tls : JsonObject
hidden_tls = property "tag" (string "proxy") (
    property "tls" (object (property "ech" (boolean true) (property "pin" (string "x") empty)))
      empty)

prune_loop_terminates_example :
    prune_loop (suc (length chain)) chain hidden_tls
    ≡ some (prune_invisible_policy_fields hidden_tls chain)
prune_loop_terminates_example = prune_loop_terminates hidden_tls chain

prune-IsSettled_example : All (IsSettled (prune_invisible_policy_fields hidden_tls chain)) chain
prune-IsSettled_example = prune-IsSettled hidden_tls chain

prune-Shrinks_example : Shrinks hidden_tls (prune_invisible_policy_fields hidden_tls chain)
prune-Shrinks_example = prune-Shrinks hidden_tls chain

apart_from_tag : All (λ f. clashes f.path "tag" ≡ false) chain
unfolding clashes
apart_from_tag = (refl, (refl, (refl, tt)))

pin_spared : All (Spares hidden_tls chain "tls.pin") chain
unfolding clashes lies_below
pin_spared = (inr refl, (inl refl, (inl refl, tt)))

prune-Spares_example :
    (get_policy_path (prune_invisible_policy_fields hidden_tls chain) "tls.pin"
      ≡ get_policy_path hidden_tls "tls.pin")
    ⊎ (get_policy_path (prune_invisible_policy_fields hidden_tls chain) "tls.pin" ≡ none)
prune-Spares_example = prune-Spares hidden_tls chain "tls.pin" pin_spared

pin_apart : clashes "tls.ech.key" "tls.pin" ≡ false
unfolding clashes
pin_apart = refl
