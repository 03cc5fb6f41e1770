-- ===== src/Policy/Dns/Change/Effect.antt =====
-- What `changeDNSServerType`, `changeDNSRuleType` and `changeDNSAction` do.
use boxui.Base.{
  String, Bool, true, false, not, Option, none, some, ◌≡◌, ◌≢◌, refl, subst, sym, ◌∙◌, ◌&&◌, ◌==◌,
  eq_iff, Memᴰ, All, Bool-cases, inl, inr, if◌then◌else◌, arith, ap,
}
use mathlib.Core.Bool.{false≢true}
use boxui.Text.{split_dots}
use boxui.Json.{JsonValue, string, JsonObject}
use boxui.Policy.FormModel.{get_policy_path}
use boxui.Policy.FormModel.Access.{clashes}
use boxui.Policy.Route.Change.{text_at}
use boxui.Policy.Route.Change.Keys.{
  lookup-set-type, lookup-set-action, &&-left, ne-false, to_string-type, to_string-action,
}
use boxui.Policy.Dns.Cleanup.{CleanupTransition, unique_fields, is_kept, compatible_fields}
use boxui.Policy.Dns.Cleanup.Fields.{
  CleanupField, CleanupRegistry, dns_server_cleanup_fields, dns_rule_cleanup_fields,
  dns_action_cleanup_fields,
}
use boxui.Policy.Dns.Cleanup.Exact.{is_transparent, set-cleanup-exact, set-cleanup-frame}
use boxui.Policy.FormModel.Carried.{Carries, Carries-map, nothing-Carries, table-IsDistinct}
use boxui.Policy.Dns.Cleanup.Fits.{path_of, kind_of, CleanupSurvives, is_kept-Carries}
use boxui.Policy.Dns.Change.{
  has_type, differ, server_type_of, infer_dns_server_type, are_separated, change_dns_server_type,
  change_dns_rule_type, change_dns_action,
}
use boxui.Policy.Dns.Change.Separation.{
  IsSeparation, are_separated-IsSeparation, IsSeparation-are_separated,
}
use boxui.Policy.Dns.Change.Tables.{
  server-IsSound, rule-IsSound, action-IsSound, server_fields-distinct, rule_fields-distinct,
  action_fields-distinct,
}

-- The value that a change from one type to another keeps at a field: its own, or none.
unfoldable pub surviving :
    CleanupRegistry → CleanupTransition → CleanupField → Option JsonValue → Option JsonValue
surviving registry change f value =
    if is_kept (compatible_fields registry change) f value then value else none

server_type_of-stored :
    (type : String)
    → type ≢ ""
    → server_type_of (if type == "legacy" then none else some (string type)) ≡ type
unfolding server_type_of
server_type_of-stored type h = ground (arith, eq_iff type "legacy", eq_iff type "")

-- After a change to a type that is not the empty text a server reads as of that type.
pub infer-change_dns_server_type :
    (server : JsonObject) (type : String)
    → type ≢ ""
    → infer_dns_server_type (change_dns_server_type server type) ≡ type
unfolding change_dns_server_type
infer-change_dns_server_type server type h =
    elim (Bool-cases (infer_dns_server_type server == type)) [
      | inl same ↦ rw same ((eq_iff _ type).0 same)
      | inr other ↦
          rw other
            (unfold infer_dns_server_type in rw lookup-set-type (server_type_of-stored type h))
    ]

-- The change that a server undergoes; a legacy server shares no field with the other types.
abbrev pub server_change : JsonObject → String → CleanupTransition
server_change server type = record {
  current = infer_dns_server_type server;
  target = type;
  share = not (are_separated (infer_dns_server_type server) type);
}

change_dns_server_type-surviving :
    (server : JsonObject) (type : String) (f : CleanupField)
    → infer_dns_server_type server ≢ type
    → Memᴰ f (unique_fields dns_server_cleanup_fields)
    → get_policy_path (change_dns_server_type server type) f.path
      ≡ surviving dns_server_cleanup_fields
          (server_change server type)
          f
          (get_policy_path server f.path)
unfolding change_dns_server_type surviving
change_dns_server_type-surviving server type f changes m = rw (ne-false _ type changes) (
    set-cleanup-exact server dns_server_cleanup_fields (server_change server type) "type" _ f
      server-IsSound.free server-IsSound.clear server-IsSound.apart m)

differ_self : (a b : Bool) → (a && a && differ b b) ≡ false
differ_self true true = refl
differ_self true false = refl
differ_self false b = refl

separated-ne : (current type : String) → are_separated current type ≡ true → current ≢ type
unfolding are_separated
separated-ne current type h e = false≢true (
    sym (differ_self (has_type dns_server_cleanup_fields type) (type == "legacy"))
    ∙ subst (λ c. are_separated c type ≡ true) e h)

surviving-unshared :
    (current type : String) (f : CleanupField) (value : Option JsonValue)
    → surviving dns_server_cleanup_fields
        (record { current = current; target = type; share = false })
        f
        value
      ≡ none
unfolding surviving compatible_fields is_kept
surviving-unshared current type f none = refl
surviving-unshared current type f (some v) = refl

-- Between a legacy server and one of another known type nothing is carried over: after the change
-- every field that some server type has is without a value.
pub change_dns_server_type-separated :
    (server : JsonObject) (type : String) (f : CleanupField)
    → are_separated (infer_dns_server_type server) type ≡ true
    → Memᴰ f (unique_fields dns_server_cleanup_fields)
    → get_policy_path (change_dns_server_type server type) f.path ≡ none
change_dns_server_type-separated server type f h m =
    change_dns_server_type-surviving server type f
      (separated-ne (infer_dns_server_type server) type h) m
    ∙ rw h
        (surviving-unshared (infer_dns_server_type server) type f (get_policy_path server f.path))

-- What a change of a server's type carries over.
abbrev pub ServerSurvives : String → String → String → JsonValue → Type 0
ServerSurvives current type q v =
    (¬ IsSeparation current type) × CleanupSurvives dns_server_cleanup_fields current type q v

-- Where the type changes, each field known to some server type keeps its value exactly if the new
-- type has the field, the value fits, and the old type, where known, has it with the same kind; and
-- a value is never shared between a legacy server and another known type.
pub change_dns_server_type-exact :
    (server : JsonObject) (type : String) (f : CleanupField)
    → infer_dns_server_type server ≢ type
    → Memᴰ f (unique_fields dns_server_cleanup_fields)
    → Carries
        (ServerSurvives (infer_dns_server_type server) type f.path)
        (get_policy_path server f.path)
        (get_policy_path (change_dns_server_type server type) f.path)
unfolding surviving
change_dns_server_type-exact server type f changes m =
    let current = infer_dns_server_type server in
    let before = get_policy_path server f.path in
    elim (Bool-cases (are_separated current type)) [
      | inl e ↦ rw (change_dns_server_type-separated server type f e m) (
          nothing-Carries (ServerSurvives current type f.path) before
            (λ v survives. survives.0 (are_separated-IsSeparation current type e)))
      | inr e ↦
          let joined : ¬ IsSeparation current type =
            λ s. false≢true (sym e ∙ IsSeparation-are_separated current type changes s) in
          let same =
            change_dns_server_type-surviving server type f changes m
            ∙ ap
                (λ b.
                  surviving dns_server_cleanup_fields
                    (record { current = current; target = type; share = not b }) f before)
                e in
          subst (Carries (ServerSurvives current type f.path) before) (sym same) (
            Carries-map (CleanupSurvives dns_server_cleanup_fields current type f.path)
              (ServerSurvives current type f.path) before _
              (λ v. ((λ s. (joined, s)), λ both. both.1))
              (is_kept-Carries dns_server_cleanup_fields current type f before (
                table-IsDistinct path_of kind_of dns_server_cleanup_fields type
                  server_fields-distinct)))
    ]

-- A path that no server type has and that is not the type keeps its value.
pub change_dns_server_type-frame :
    (server : JsonObject) (type q : String)
    → clashes "type" q ≡ false
    → is_transparent (split_dots q) ≡ true
    → All (λ f. clashes f.path q ≡ false) (unique_fields dns_server_cleanup_fields)
    → get_policy_path (change_dns_server_type server type) q ≡ get_policy_path server q
unfolding change_dns_server_type
change_dns_server_type-frame server type q h clear hs =
    elim (Bool-cases (infer_dns_server_type server == type)) [
      | inl same ↦ rw same
      | inr other ↦ rw other (
          set-cleanup-frame server dns_server_cleanup_fields (server_change server type) "type" q _
            h clear hs)
    ]

-- After a change of type a DNS rule reads as of that type.
pub text_at-change_dns_rule_type :
    (rule : JsonObject) (type : String)
    → text_at "type" "default" (change_dns_rule_type rule type) ≡ type
unfolding change_dns_rule_type text_at
text_at-change_dns_rule_type rule type = elim (Bool-cases (text_at "type" "default" rule == type)) [
  | inl same ↦ rw same ((eq_iff _ type).0 same)
  | inr other ↦ rw (other, lookup-set-type) (to_string-type type)
]

change_dns_rule_type-surviving :
    (rule : JsonObject) (type : String) (f : CleanupField)
    → text_at "type" "default" rule ≢ type
    → Memᴰ f (unique_fields dns_rule_cleanup_fields)
    → get_policy_path (change_dns_rule_type rule type) f.path
      ≡ surviving dns_rule_cleanup_fields
          (record { current = text_at "type" "default" rule; target = type; share = true })
          f
          (get_policy_path rule f.path)
unfolding change_dns_rule_type surviving
change_dns_rule_type-surviving rule type f changes m = rw (ne-false _ type changes) (
    set-cleanup-exact rule dns_rule_cleanup_fields _ "type" _ f rule-IsSound.free rule-IsSound.clear
      rule-IsSound.apart m)

-- Where the type of a DNS rule changes, each field known to some type keeps its value exactly if the
-- new type has the field, the value fits, and the old type, where known, has it with the same kind.
pub change_dns_rule_type-exact :
    (rule : JsonObject) (type : String) (f : CleanupField)
    → text_at "type" "default" rule ≢ type
    → Memᴰ f (unique_fields dns_rule_cleanup_fields)
    → Carries
        (CleanupSurvives dns_rule_cleanup_fields (text_at "type" "default" rule) type f.path)
        (get_policy_path rule f.path)
        (get_policy_path (change_dns_rule_type rule type) f.path)
unfolding surviving
change_dns_rule_type-exact rule type f changes m =
    subst
      (Carries (CleanupSurvives dns_rule_cleanup_fields (text_at "type" "default" rule) type f.path)
        (get_policy_path rule f.path))
      (sym (change_dns_rule_type-surviving rule type f changes m))
      (is_kept-Carries dns_rule_cleanup_fields (text_at "type" "default" rule) type f
        (get_policy_path rule f.path)
        (table-IsDistinct path_of kind_of dns_rule_cleanup_fields type rule_fields-distinct))

-- After a change of action a DNS rule reads as of that action, also where the action is cleared.
pub text_at-change_dns_action :
    (rule : JsonObject) (action : String)
    → text_at "action" "" (change_dns_action rule action) ≡ action
unfolding change_dns_action text_at
text_at-change_dns_action rule action =
    elim (Bool-cases (text_at "action" "" rule == action && not (text_at "action" "" rule == ""))) [
      | inl same ↦ rw same ((eq_iff _ action).0 (&&-left _ _ same))
      | inr other ↦ rw (other, lookup-set-action) (to_string-action action)
    ]

change_dns_action-surviving :
    (rule : JsonObject) (action : String) (f : CleanupField)
    → text_at "action" "" rule ≢ action
    → Memᴰ f (unique_fields dns_action_cleanup_fields)
    → get_policy_path (change_dns_action rule action) f.path
      ≡ surviving dns_action_cleanup_fields
          (record {
            current = if text_at "action" "" rule == "" then "route" else text_at "action" "" rule;
            target = action;
            share = true;
          })
          f
          (get_policy_path rule f.path)
unfolding change_dns_action surviving
change_dns_action-surviving rule action f changes m = rw (ne-false _ action changes) (
    set-cleanup-exact rule dns_action_cleanup_fields _ "action" _ f action-IsSound.free
      action-IsSound.clear action-IsSound.apart m)

-- Where the action of a DNS rule changes, each field of some action keeps its value exactly if the
-- new action has the field, the value fits, and the old action, where known, has it with the same
-- kind.
pub change_dns_action-exact :
    (rule : JsonObject) (action : String) (f : CleanupField)
    → text_at "action" "" rule ≢ action
    → Memᴰ f (unique_fields dns_action_cleanup_fields)
    → Carries
        (CleanupSurvives dns_action_cleanup_fields
          (if text_at "action" "" rule == "" then "route" else text_at "action" "" rule)
          action
          f.path)
        (get_policy_path rule f.path)
        (get_policy_path (change_dns_action rule action) f.path)
unfolding surviving
change_dns_action-exact rule action f changes m =
    subst
      (Carries
        (CleanupSurvives dns_action_cleanup_fields
          (if text_at "action" "" rule == "" then "route" else text_at "action" "" rule) action
          f.path)
        (get_policy_path rule f.path))
      (sym (change_dns_action-surviving rule action f changes m))
      (is_kept-Carries dns_action_cleanup_fields
        (if text_at "action" "" rule == "" then "route" else text_at "action" "" rule) action f
        (get_policy_path rule f.path)
        (table-IsDistinct path_of kind_of dns_action_cleanup_fields action action_fields-distinct))
