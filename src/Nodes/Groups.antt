-- ===== src/Nodes/Groups.antt =====
-- The groups of the subscription nodes.
use mathlib.Core.List.{append_assoc, append-nil}
use boxui.Base.{
  String, false, List, [], ◌∷◌, ◌++◌, ◌==◌, ◌≡◌, refl, sym, ap, ◌∙◌, arith, reduce, keep,
  Bool-cases, inl, inr, eq_iff, if◌then◌else◌,
}
use boxui.Nodes.{
  Outbound, is_subscription, group_name, add_to_group, group_step, group_subscriptions,
}

-- The nodes of one name, in their order.
unfoldable pub nodes_named : String → List Outbound → List Outbound
nodes_named name nodes =
    keep (λ node. if is_subscription node.source then group_name node == name else false) nodes

-- `groups.get(name) ?? []`
unfoldable pub group_of : List (String × List Outbound) → String → List Outbound
group_of [] name = []
group_of ((other, nodes) ∷ groups) name = if other == name then nodes else group_of groups name

group_of-add_to_group :
    (groups : List (String × List Outbound)) (name key : String) (node : Outbound)
    → group_of (add_to_group groups name node) key
      ≡ (if name == key then group_of groups key ++ node ∷ [] else group_of groups key)
unfolding group_of add_to_group
group_of-add_to_group [] name key node = elim (Bool-cases (name == key)) [
  | inl e ↦ rw e refl
  | inr e ↦ rw e refl
]
group_of-add_to_group ((other, nodes) ∷ groups) name key node = elim (Bool-cases (other == name)) [
  | inl e ↦
      rw (e, sym ((eq_iff other name).0 e))
        (elim (Bool-cases (other == key)) [ inl k ↦ rw k refl | inr k ↦ rw k refl ])
  | inr e ↦
      rw (e, group_of-add_to_group groups name key node)
        (elim (Bool-cases (other == key)) [
          | inl k ↦
              let other_name : name == key ≡ false =
                ground (arith, eq_iff other key, eq_iff name key, eq_iff other name, e, k) in
              rw (k, other_name) refl
          | inr k ↦ rw k refl
        ])
]

group_of-step :
    (groups : List (String × List Outbound)) (node : Outbound) (key : String)
    → group_of (group_step groups node) key ≡ group_of groups key ++ nodes_named key (node ∷ [])
unfolding nodes_named
group_of-step groups node key = elim (Bool-cases (is_subscription node.source)) [
  | inl e ↦
      rw (e, group_of-add_to_group groups (group_name node) key node)
        (elim (Bool-cases (group_name node == key)) [
          | inl k ↦ rw k refl
          | inr k ↦ rw k (sym (append-nil (group_of groups key)))
        ])
  | inr e ↦ rw e (sym (append-nil (group_of groups key)))
]

nodes_named-cons :
    (key : String) (node : Outbound) (nodes : List Outbound)
    → nodes_named key (node ∷ nodes) ≡ nodes_named key (node ∷ []) ++ nodes_named key nodes
unfolding nodes_named
nodes_named-cons key node nodes =
    elim (Bool-cases (if is_subscription node.source then group_name node == key else false)) [
      | inl e ↦ rw e refl
      | inr e ↦ rw e refl
    ]

group_of-then :
    (groups : List (String × List Outbound)) (node : Outbound) (nodes : List Outbound)
    (key : String)
    → group_of (group_step groups node) key ++ nodes_named key nodes
      ≡ group_of groups key ++ nodes_named key (node ∷ nodes)
group_of-then groups node nodes key =
    ap (λ ns. ns ++ nodes_named key nodes) (group_of-step groups node key)
    ∙ append_assoc (group_of groups key) (nodes_named key (node ∷ [])) (nodes_named key nodes)
    ∙ ap (λ ns. group_of groups key ++ ns) (sym (nodes_named-cons key node nodes))

group_of-reduce :
    (groups : List (String × List Outbound)) (nodes : List Outbound) (key : String)
    → group_of (reduce group_step groups nodes) key ≡ group_of groups key ++ nodes_named key nodes
unfolding reduce nodes_named
group_of-reduce groups [] key = sym (append-nil (group_of groups key))
group_of-reduce groups (node ∷ nodes) key =
    group_of-reduce (group_step groups node) nodes key ∙ group_of-then groups node nodes key

-- The group under a name has just the subscription nodes of that name, in the order of the list, and
-- is empty where there are none.
pub group_of-group_subscriptions :
    (nodes : List Outbound) (key : String)
    → group_of (group_subscriptions nodes) key ≡ nodes_named key nodes
unfolding group_subscriptions group_of
group_of-group_subscriptions nodes key = group_of-reduce [] nodes key
