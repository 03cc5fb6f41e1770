-- ===== src/Proxy/Outbound/Change/Ownership.antt =====
-- What an outbound of a new type does not carry: the sections and the fields of other types.
use boxui.Base.{
  String, Bool, true, false, Option, none, List, [], ◌∷◌, ◌++◌, ◌≡◌, ◌≢◌, refl, ◌∙◌, ◌||◌, ◌==◌,
  Memᴰ, All-mem, All-of, every, every-All, includes, distinct, arith,
}
use boxui.Json.{JsonValue, JsonObject}
use boxui.Policy.FormModel.Access.{clashes}
use boxui.Policy.Route.Change.{text_at}
use boxui.Proxy.Kinds.{ProxyFieldSpec}
use boxui.Proxy.FormModel.{get_path}
use boxui.Proxy.FormModel.Removal.{
  Keeps, IsGone, IsGone-kept, get_path-set_path_self, is_apart_from_type, apart_from_type,
}
use boxui.Proxy.Outbound.Fields.{
  outbound_tls_types, outbound_transport_types, outbound_multiplex_types,
}
use boxui.Proxy.Outbound.Sections.{credential_paths, tls_credential_paths}
use boxui.Proxy.Outbound.Change.{
  known_protocol_fields, protocol_fields, group_fields, field_paths, is_compatible, drop_section,
  strip_outbound, change_outbound_type, remove_incompatible_fields,
}
use boxui.Proxy.Outbound.Change.Removals.{
  drop_section_keeps, remove_paths_keeps, reduce_incompatible-foreign,
}
use boxui.Proxy.Outbound.Change.Effect.{change_outbound_type-strip, sections-IsGone}

-- The sections of an outbound, with their paths and the types that have them.
pub data OutboundSection : Type 0 where
  tls : OutboundSection
  transport : OutboundSection
  multiplex : OutboundSection

abbrev pub section_path : OutboundSection → String
section_path OutboundSection.tls = "tls"
section_path OutboundSection.transport = "transport"
section_path OutboundSection.multiplex = "multiplex"

abbrev pub section_types : OutboundSection → List String
section_types OutboundSection.tls = outbound_tls_types
section_types OutboundSection.transport = outbound_transport_types
section_types OutboundSection.multiplex = outbound_multiplex_types

drop_section-IsGone :
    (types : List String) (path type : String) (o : JsonObject)
    → includes types type ≡ false
    → IsGone path (drop_section types path type o)
unfolding drop_section
drop_section-IsGone types path type o h = rw h (get_path-set_path_self o path none)

strip_outbound-section :
    (o : JsonObject) (type : String) (section : OutboundSection)
    → includes (section_types section) type ≡ false
    → IsGone (section_path section) (strip_outbound type o)
unfolding strip_outbound
strip_outbound-section o type OutboundSection.tls h =
    drop_section_keeps (IsGone "tls") outbound_multiplex_types "multiplex" type _
      (IsGone-kept "tls" "multiplex")
      (drop_section_keeps (IsGone "tls") outbound_transport_types "transport" type _
        (IsGone-kept "tls" "transport") (drop_section-IsGone outbound_tls_types "tls" type _ h))
strip_outbound-section o type OutboundSection.transport h =
    drop_section_keeps (IsGone "transport") outbound_multiplex_types "multiplex" type _
      (IsGone-kept "transport" "multiplex")
      (drop_section-IsGone outbound_transport_types "transport" type _ h)
strip_outbound-section o type OutboundSection.multiplex h =
    drop_section-IsGone outbound_multiplex_types "multiplex" type _ h

section_apart : (section : OutboundSection) → clashes "type" (section_path section) ≡ false
unfolding clashes
section_apart OutboundSection.tls = refl
section_apart OutboundSection.transport = refl
section_apart OutboundSection.multiplex = refl

-- After a change to a type without TLS, without a transport or without multiplexing, the outbound
-- has no such section.
pub change_outbound_type-section :
    (o : JsonObject) (type : String) (section : OutboundSection)
    → text_at "type" "" o ≢ type
    → includes (section_types section) type ≡ false
    → get_path (change_outbound_type o type) (section_path section) ≡ none
change_outbound_type-section o type section changes h =
    change_outbound_type-strip o type (section_path section) changes (section_apart section)
    ∙ strip_outbound-section o type section h

or-false : (a b : Bool) → (a || b) ≡ false → (a ≡ false) × (b ≡ false)
or-false false b h = (refl, h)
or-false true b h = (h, ground arith)

unowned-incompatible :
    (target : List ProxyFieldSpec) (q : String) (v : Option JsonValue)
    → includes (field_paths target) q ≡ false
    → is_compatible target q v ≡ false
unfolding is_compatible
unowned-incompatible [] q v h = refl
unowned-incompatible (f ∷ target) q v h =
    let (here, there) = or-false (f.path == q) (includes (field_paths target) q) h in
    rw (here, is_compatible) (unowned-incompatible target q v there)

strip_outbound-foreign :
    (o : JsonObject) (type : String) {q : String}
    → Memᴰ q (distinct (field_paths known_protocol_fields))
    → includes (field_paths (protocol_fields type ++ group_fields type)) q ≡ false
    → IsGone q (strip_outbound type o)
unfolding strip_outbound remove_incompatible_fields
strip_outbound-foreign o type {q} m h = sections-IsGone q type _ (
    remove_paths_keeps (IsGone q) _ tls_credential_paths
      (All-of (Keeps (IsGone q)) (IsGone-kept q) tls_credential_paths)
      (remove_paths_keeps (IsGone q) _ credential_paths
        (All-of (Keeps (IsGone q)) (IsGone-kept q) credential_paths)
        (reduce_incompatible-foreign (protocol_fields type ++ group_fields type) _
          (distinct (field_paths known_protocol_fields))
          (λ v. unowned-incompatible (protocol_fields type ++ group_fields type) q v h) m)))

known_test : every is_apart_from_type (distinct (field_paths known_protocol_fields)) ≡ true
unfolding clashes distinct known_protocol_fields
known_test = refl

-- After a change of type no field of another protocol is left: a path that some protocol or group
-- has and that the new type does not have is without a value.
pub change_outbound_type-foreign :
    (o : JsonObject) (type : String) {q : String}
    → text_at "type" "" o ≢ type
    → Memᴰ q (distinct (field_paths known_protocol_fields))
    → includes (field_paths (protocol_fields type ++ group_fields type)) q ≡ false
    → get_path (change_outbound_type o type) q ≡ none
change_outbound_type-foreign o type {q} changes m h =
    change_outbound_type-strip o type q changes (
      apart_from_type q (
        All-mem (λ p. is_apart_from_type p ≡ true) (distinct (field_paths known_protocol_fields))
          (every-All is_apart_from_type (distinct (field_paths known_protocol_fields)) known_test)
          m))
    ∙ strip_outbound-foreign o type m h
