-- ===== src/Policy/Kinds.antt =====
-- The kinds and references of a policy form field
-- (ui/src/features/policy/policy-form-model.ts: PolicyFieldKind, PolicyFieldRef).
use mathlib.Core.Bool.{decide}
use boxui.Base.{Bool, Option}
use boxui.Form.{FieldSpec}

pub data PolicyFieldKind : Type 0 where
  text textarea number boolean list number_list : PolicyFieldKind
  select json_object json_array ref ref_multi network_multi network_interface : PolicyFieldKind

pub data PolicyFieldRef : Type 0 where
  inbound outbound dns_server rule_set network_interface : PolicyFieldRef

abbrev pub PolicyFieldSpec : Type 0
PolicyFieldSpec = FieldSpec PolicyFieldKind PolicyFieldRef

unfoldable pub OptionPolicyFieldKind-discrete : Discrete (Option PolicyFieldKind)
OptionPolicyFieldKind-discrete = hlevel

-- `source.kind === field.kind`
unfoldable pub same_kind : Option PolicyFieldKind → Option PolicyFieldKind → Bool
unfolding decide OptionPolicyFieldKind-discrete
same_kind a b = decide (OptionPolicyFieldKind-discrete a b)
