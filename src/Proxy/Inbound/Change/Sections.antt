-- ===== src/Proxy/Inbound/Change/Sections.antt =====
-- The sections that `changeInboundType` drops.
use boxui.Base.{String, true, false, none, List, ◌≡◌, ◌≢◌, refl, ◌∙◌, includes}
use boxui.Json.{JsonObject}
use boxui.Policy.FormModel.Access.{clashes}
use boxui.Policy.Route.Change.{text_at}
use boxui.Proxy.FormModel.{get_path}
use boxui.Proxy.FormModel.Removal.{IsGone, IsGone-kept, get_path-set_path_self}
use boxui.Proxy.Inbound.Sections.{tls_types, transport_types, multiplex_types}
use boxui.Proxy.Inbound.Change.{drop_section, strip_inbound, change_inbound_type}
use boxui.Proxy.Inbound.Change.Steps.{change_inbound_type-strip, drop_section_keeps}

-- The sections of an inbound, with their paths and the types that have them.
pub data InboundSection : Type 0 where
  tls : InboundSection
  transport : InboundSection
  multiplex : InboundSection

abbrev pub section_path : InboundSection → String
section_path InboundSection.tls = "tls"
section_path InboundSection.transport = "transport"
section_path InboundSection.multiplex = "multiplex"

abbrev pub section_types : InboundSection → List String
section_types InboundSection.tls = tls_types
section_types InboundSection.transport = transport_types
section_types InboundSection.multiplex = multiplex_types

drop_section-IsGone :
    (types : List String) (path previous type : String) (o : JsonObject)
    → includes types previous ≡ true
    → includes types type ≡ false
    → IsGone path (drop_section types path previous type o)
unfolding drop_section
drop_section-IsGone types path previous type o had has =
    rw (had, has) (get_path-set_path_self o path none)

strip_inbound-section :
    (o : JsonObject) (previous type : String) (section : InboundSection)
    → includes (section_types section) previous ≡ true
    → includes (section_types section) type ≡ false
    → IsGone (section_path section) (strip_inbound previous type o)
unfolding strip_inbound
strip_inbound-section o previous type InboundSection.tls had has =
    drop_section_keeps (IsGone "tls") multiplex_types "multiplex" previous type _
      (IsGone-kept "tls" "multiplex")
      (drop_section_keeps (IsGone "tls") transport_types "transport" previous type _
        (IsGone-kept "tls" "transport")
        (drop_section-IsGone tls_types "tls" previous type _ had has))
strip_inbound-section o previous type InboundSection.transport had has =
    drop_section_keeps (IsGone "transport") multiplex_types "multiplex" previous type _
      (IsGone-kept "transport" "multiplex")
      (drop_section-IsGone transport_types "transport" previous type _ had has)
strip_inbound-section o previous type InboundSection.multiplex had has =
    drop_section-IsGone multiplex_types "multiplex" previous type _ had has

section_apart : (section : InboundSection) → clashes "type" (section_path section) ≡ false
unfolding clashes
section_apart InboundSection.tls = refl
section_apart InboundSection.transport = refl
section_apart InboundSection.multiplex = refl

-- An inbound that changes from a type with TLS, a transport or multiplexing to one without has no
-- such section afterwards.
pub change_inbound_type-section :
    (o : JsonObject) (type : String) (section : InboundSection)
    → text_at "type" "" o ≢ type
    → includes (section_types section) (text_at "type" "" o) ≡ true
    → includes (section_types section) type ≡ false
    → get_path (change_inbound_type o type) (section_path section) ≡ none
change_inbound_type-section o type section changes had has =
    change_inbound_type-strip o type (section_path section) changes (section_apart section)
    ∙ strip_inbound-section o (text_at "type" "" o) type section had has
