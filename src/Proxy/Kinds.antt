-- ===== src/Proxy/Kinds.antt =====
-- The kinds and references of a proxy form field
-- (ui/src/features/proxy/proxy-form-model.ts: FieldKind, FieldRef).
use mathlib.Core.Bool.{decide}
use boxui.Base.{Bool, Option}
use boxui.Form.{FieldSpec}

pub data FieldKind : Type 0 where
  text textarea number boolean list number_list : FieldKind
  select json_object users listen_address network_interface : FieldKind
  ref network_multi : FieldKind

pub data FieldRef : Type 0 where
  inbound dns_server outbound network_interface_multi : FieldRef

abbrev pub ProxyFieldSpec : Type 0
ProxyFieldSpec = FieldSpec FieldKind FieldRef

unfoldable pub OptionFieldKind-discrete : Discrete (Option FieldKind)
OptionFieldKind-discrete = hlevel

-- `candidate.kind === field.kind`
unfoldable pub same_kind : Option FieldKind → Option FieldKind → Bool
unfolding decide OptionFieldKind-discrete
same_kind a b = decide (OptionFieldKind-discrete a b)
