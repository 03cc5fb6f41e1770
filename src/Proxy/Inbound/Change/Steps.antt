-- ===== src/Proxy/Inbound/Change/Steps.antt =====
-- The removals that `changeInboundType` makes, step by step: what each keeps and what it drops.
use boxui.Base.{
  String, Bool, true, false, not, none, List, [], ◌∷◌, ◌++◌, ◌≡◌, ◌≢◌, subst, sym, ◌&&◌, ◌==◌, Memᴰ,
  All, All-of, All-split, keep, includes, Bool-cases, inl, inr, reduce,
}
use boxui.Json.{string, JsonObject}
use boxui.Policy.FormModel.Access.{clashes}
use boxui.Policy.Route.Change.{text_at}
use boxui.Policy.Route.Change.Keys.{ne-false}
use boxui.Proxy.Kinds.{ProxyFieldSpec}
use boxui.Proxy.FormModel.{get_path, set_path}
use boxui.Proxy.FormModel.Removal.{
  Keeps, IsGone, IsGone-kept, get_path-set_path_self, get_path-insert-type,
}
use boxui.Proxy.Inbound.Fields.{listen_fields, tun_fields}
use boxui.Proxy.Inbound.Sections.{tls_types, transport_types, multiplex_types}
use boxui.Proxy.Inbound.Change.{
  protocol_fields, remove_fields, but_udp_timeout, leave_tun, enter_tun, dropped_fields,
  drop_section, strip_inbound, change_inbound_type,
}

-- A path apart from the type reads in the changed inbound as before the new type is stored.
pub change_inbound_type-strip :
    (o : JsonObject) (type q : String)
    → text_at "type" "" o ≢ type
    → clashes "type" q ≡ false
    → get_path (change_inbound_type o type) q
      ≡ get_path (strip_inbound (text_at "type" "" o) type o) q
unfolding change_inbound_type
change_inbound_type-strip o type q changes apart =
    rw (ne-false _ type changes)
      (get_path-insert-type (strip_inbound (text_at "type" "" o) type o) (string type) q apart)

pub change_inbound_type_same :
    (o : JsonObject) (type : String)
    → (text_at "type" "" o == type) ≡ true
    → change_inbound_type o type ≡ o
unfolding change_inbound_type
change_inbound_type_same o type same = rw same

module _ (P : JsonObject → Type 0) where
  -- Removing the field keeps `P`.
  abbrev pub KeepsField : ProxyFieldSpec → Type 0
  KeepsField f = Keeps P f.path

  pub remove_fields_keeps :
      (o : JsonObject) (fields : List ProxyFieldSpec)
      → All KeepsField fields
      → P o
      → P (remove_fields o fields)
  unfolding remove_fields
  remove_fields_keeps o [] k h = h
  remove_fields_keeps o (f ∷ fields) (k, ks) h =
      remove_fields_keeps (set_path o f.path none) fields ks (k o h)

  pub drop_section_keeps :
      (types : List String) (path previous type : String) (o : JsonObject)
      → Keeps P path
      → P o
      → P (drop_section types path previous type o)
  unfolding drop_section
  drop_section_keeps types path previous type o k h =
      elim (Bool-cases (includes types previous && not (includes types type))) [
        | inl drops ↦ rw drops (k o h)
        | inr stays ↦ rw stays h
      ]

  pub leave_tun_keeps :
      (previous type : String) (o : JsonObject)
      → All KeepsField (but_udp_timeout tun_fields)
      → P o
      → P (leave_tun previous type o)
  unfolding leave_tun
  leave_tun_keeps previous type o k h =
      elim (Bool-cases ((previous == "tun") && not (type == "tun"))) [
        | inl leaves ↦ rw leaves (remove_fields_keeps o (but_udp_timeout tun_fields) k h)
        | inr stays ↦ rw stays h
      ]

  pub enter_tun_keeps :
      (previous type : String) (o : JsonObject)
      → All KeepsField (but_udp_timeout listen_fields)
      → P o
      → P (enter_tun previous type o)
  unfolding enter_tun
  enter_tun_keeps previous type o k h =
      elim (Bool-cases (not (previous == "tun") && (type == "tun"))) [
        | inl enters ↦ rw enters (remove_fields_keeps o (but_udp_timeout listen_fields) k h)
        | inr stays ↦ rw stays h
      ]

  pub sections_keep :
      (previous type : String) (o : JsonObject)
      → Keeps P "tls"
      → Keeps P "transport"
      → Keeps P "multiplex"
      → P o
      → P (
          drop_section multiplex_types "multiplex" previous type (
            drop_section transport_types "transport" previous type
              (drop_section tls_types "tls" previous type o)))
  sections_keep previous type o tls transport multiplex h =
      drop_section_keeps multiplex_types "multiplex" previous type _ multiplex (
        drop_section_keeps transport_types "transport" previous type _ transport
          (drop_section_keeps tls_types "tls" previous type o tls h))

pub IsGone-All : (q : String) (fields : List ProxyFieldSpec) → All (KeepsField (IsGone q)) fields
IsGone-All q fields = All-of (KeepsField (IsGone q)) (λ f. IsGone-kept q f.path) fields

-- A removed field is gone.
pub remove_fields-IsGone :
    (o : JsonObject) (fields : List ProxyFieldSpec) {f : ProxyFieldSpec}
    → Memᴰ f fields
    → IsGone f.path (remove_fields o fields)
unfolding remove_fields reduce
remove_fields-IsGone o [] m = elim m [ ]
remove_fields-IsGone o (g ∷ fields) {f} (Memᴰ.head e) =
    remove_fields_keeps (IsGone f.path) (set_path o g.path none) fields (IsGone-All f.path fields) (
      subst (λ (r : ProxyFieldSpec). IsGone r.path (set_path o g.path none)) (sym e)
        (get_path-set_path_self o g.path none))
remove_fields-IsGone o (g ∷ fields) (Memᴰ.tail m) =
    remove_fields-IsGone (set_path o g.path none) fields m

pub Memᴰ-keep :
    (test : ProxyFieldSpec → Bool) (fields : List ProxyFieldSpec) {f : ProxyFieldSpec}
    → Memᴰ f fields
    → test f ≡ true
    → Memᴰ f (keep test fields)
Memᴰ-keep test [] m h = elim m [ ]
Memᴰ-keep test (g ∷ fields) (Memᴰ.head e) h = rw (subst (λ r. test r ≡ true) e h) (Memᴰ.head e)
Memᴰ-keep test (g ∷ fields) (Memᴰ.tail m) h = elim (Bool-cases (test g)) [
  | inl stays ↦ rw stays (Memᴰ.tail (Memᴰ-keep test fields m h))
  | inr goes ↦ rw goes (Memᴰ-keep test fields m h)
]

pub strip_inbound-dropped :
    (o : JsonObject) (previous type : String) {f : ProxyFieldSpec}
    → Memᴰ f (dropped_fields previous type)
    → IsGone f.path (strip_inbound previous type o)
unfolding strip_inbound
strip_inbound-dropped o previous type {f} m =
    sections_keep (IsGone f.path) previous type _ (IsGone-kept f.path "tls")
      (IsGone-kept f.path "transport") (IsGone-kept f.path "multiplex")
      (remove_fields-IsGone _ (dropped_fields previous type) m)

-- What is gone before the fields of the old type are dropped stays so.
pub strip_inbound-IsGone :
    (o : JsonObject) (previous type q : String)
    → IsGone q (enter_tun previous type (leave_tun previous type o))
    → IsGone q (strip_inbound previous type o)
unfolding strip_inbound
strip_inbound-IsGone o previous type q h =
    sections_keep (IsGone q) previous type _ (IsGone-kept q "tls") (IsGone-kept q "transport")
      (IsGone-kept q "multiplex")
      (remove_fields_keeps (IsGone q) _ (dropped_fields previous type)
        (IsGone-All q (dropped_fields previous type)) h)

-- The paths that a change of type may remove.
abbrev pub touched_fields : String → List ProxyFieldSpec
touched_fields previous = tun_fields ++ listen_fields ++ protocol_fields previous

All-keep :
    (P : ProxyFieldSpec → Type 0) (test : ProxyFieldSpec → Bool) (fields : List ProxyFieldSpec)
    → All P fields
    → All P (keep test fields)
All-keep P test [] h = tt
All-keep P test (f ∷ fields) (p, h) = elim (Bool-cases (test f)) [
  | inl stays ↦ rw stays (p, All-keep P test fields h)
  | inr goes ↦ rw goes (All-keep P test fields h)
]

All-but_udp_timeout :
    (P : ProxyFieldSpec → Type 0) (fields : List ProxyFieldSpec)
    → All P fields
    → All P (but_udp_timeout fields)
All-but_udp_timeout P fields h = All-keep P (λ f. not (f.path == "udp_timeout")) fields h

pub strip_inbound_keeps :
    (P : JsonObject → Type 0) (previous type : String) (o : JsonObject)
    → All (KeepsField P) (touched_fields previous)
    → Keeps P "tls"
    → Keeps P "transport"
    → Keeps P "multiplex"
    → P o
    → P (strip_inbound previous type o)
unfolding strip_inbound dropped_fields
strip_inbound_keeps P previous type o ks tls transport multiplex h =
    let (tun, rest) =
      All-split (KeepsField P) tun_fields (listen_fields ++ protocol_fields previous) ks in
    let (listen, protocol) =
      All-split (KeepsField P) listen_fields (protocol_fields previous) rest in
    sections_keep P previous type _ tls transport multiplex (
      remove_fields_keeps P _ _ (All-keep (KeepsField P) _ (protocol_fields previous) protocol) (
        enter_tun_keeps P previous type _ (All-but_udp_timeout (KeepsField P) listen_fields listen)
          (leave_tun_keeps P previous type o (All-but_udp_timeout (KeepsField P) tun_fields tun)
            h)))
