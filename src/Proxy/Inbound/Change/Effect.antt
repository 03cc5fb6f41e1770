-- ===== src/Proxy/Inbound/Change/Effect.antt =====
-- What `changeInboundType` does to an inbound.
use boxui.Base.{
  String, Bool, true, false, not, none, List, [], ◌∷◌, ◌≡◌, ◌≢◌, refl, ap, sym, ◌∙◌, ◌||◌, ◌&&◌,
  ◌==◌, eq_iff, Memᴰ, All, All-mem, All-map_imp, every, every-All, or_else, Bool-cases, inl, inr,
  arith,
}
use boxui.Json.{JsonObject}
use boxui.Json.Laws.{lookup-insert}
use boxui.Json.Print.{to_string, coalesce}
use boxui.Form.{table_get, table_values}
use boxui.Policy.FormModel.Access.{clashes}
use boxui.Policy.Route.Change.{text_at}
use boxui.Policy.Route.Change.Keys.{ne-false, &&-left}
use boxui.Proxy.Kinds.{ProxyFieldSpec}
use boxui.Proxy.FormModel.{get_path}
use boxui.Proxy.FormModel.Removal.{
  IsGone, HasValue, value_kept, is_apart_from_type, apart_from_type, false-ne,
}
use boxui.Proxy.Inbound.Fields.{listen_fields, protocol_map, tun_fields}
use boxui.Proxy.Inbound.Change.{
  protocol_fields, has_field, but_udp_timeout, leave_tun, enter_tun, dropped_fields,
  change_inbound_type,
}
use boxui.Proxy.Inbound.Change.Steps.{
  change_inbound_type-strip, change_inbound_type_same, KeepsField, enter_tun_keeps, IsGone-All,
  remove_fields-IsGone, Memᴰ-keep, strip_inbound-dropped, strip_inbound-IsGone, touched_fields,
  strip_inbound_keeps,
}

-- After a change of type an inbound reads as of that type.
pub text_at-change_inbound_type :
    (o : JsonObject) (type : String) → text_at "type" "" (change_inbound_type o type) ≡ type
unfolding change_inbound_type text_at to_string coalesce
text_at-change_inbound_type o type = elim (Bool-cases (text_at "type" "" o == type)) [
  | inl same ↦ rw same ((eq_iff _ type).0 same)
  | inr other ↦ rw (other, lookup-insert)
]

abbrev is_clear : ProxyFieldSpec → Bool
is_clear f = is_apart_from_type f.path

table_test : every (every is_clear) (table_values protocol_map) ≡ true
unfolding clashes
table_test = refl

tun_test : every is_clear tun_fields ≡ true
unfolding clashes
tun_test = refl

listen_test : every is_clear listen_fields ≡ true
unfolding clashes
listen_test = refl

&&-right : (a b : Bool) → (a && b) ≡ true → b ≡ true
&&-right true b h = h
&&-right false b h = ground arith

every-table_get :
    (table : List (String × List ProxyFieldSpec)) (key : String)
    → every (every is_clear) (table_values table) ≡ true
    → every is_clear (or_else (table_get table key) []) ≡ true
unfolding table_get
every-table_get [] key h = refl
every-table_get ((k, fields) ∷ table) key h = elim (Bool-cases (k == key)) [
  | inl here ↦ rw here (&&-left _ _ h)
  | inr there ↦ rw there (every-table_get table key (&&-right _ _ h))
]

every-mem :
    (fields : List ProxyFieldSpec) {f : ProxyFieldSpec}
    → every is_clear fields ≡ true
    → Memᴰ f fields
    → clashes "type" f.path ≡ false
every-mem fields {f} h m =
    apart_from_type f.path (All-mem (λ g. is_clear g ≡ true) fields (every-All is_clear fields h) m)

protocol-clear :
    (type : String) {f : ProxyFieldSpec}
    → Memᴰ f (protocol_fields type)
    → clashes "type" f.path ≡ false
unfolding protocol_fields
protocol-clear type m =
    every-mem (protocol_fields type) (every-table_get protocol_map type table_test) m

-- Where the type changes, a field of the old type has no value afterwards if it lists the users or
-- if the new type has no field with its path and kind.
pub change_inbound_type-dropped :
    (o : JsonObject) (type : String) {f : ProxyFieldSpec}
    → text_at "type" "" o ≢ type
    → Memᴰ f (protocol_fields (text_at "type" "" o))
    → ((f.path == "users") || not (has_field (protocol_fields type) f)) ≡ true
    → get_path (change_inbound_type o type) f.path ≡ none
unfolding dropped_fields
change_inbound_type-dropped o type {f} changes m drops =
    change_inbound_type-strip o type f.path changes (protocol-clear (text_at "type" "" o) m)
    ∙ strip_inbound-dropped o (text_at "type" "" o) type (
        Memᴰ-keep (λ g. (g.path == "users") || not (has_field (protocol_fields type) g))
          (protocol_fields (text_at "type" "" o)) m drops)

leave_tun-IsGone :
    (o : JsonObject) (previous type : String) {f : ProxyFieldSpec}
    → previous ≡ "tun"
    → type ≢ "tun"
    → Memᴰ f (but_udp_timeout tun_fields)
    → IsGone f.path (leave_tun previous type o)
unfolding leave_tun
leave_tun-IsGone o previous type was h m =
    rw (was, ne-false type "tun" h) (remove_fields-IsGone o (but_udp_timeout tun_fields) m)

enter_tun-IsGone :
    (o : JsonObject) (previous : String) {f : ProxyFieldSpec}
    → previous ≢ "tun"
    → Memᴰ f (but_udp_timeout listen_fields)
    → IsGone f.path (enter_tun previous "tun" o)
unfolding enter_tun
enter_tun-IsGone o previous h m =
    rw (ne-false previous "tun" h) (remove_fields-IsGone o (but_udp_timeout listen_fields) m)

Memᴰ-but_udp_timeout :
    (fields : List ProxyFieldSpec) {f : ProxyFieldSpec}
    → Memᴰ f fields
    → f.path ≢ "udp_timeout"
    → Memᴰ f (but_udp_timeout fields)
Memᴰ-but_udp_timeout fields {f} m h =
    Memᴰ-keep (λ g. not (g.path == "udp_timeout")) fields m
      (ap not (ne-false f.path "udp_timeout" h))

-- An inbound that stops being a tun keeps no field of the tun table but `udp_timeout`.
pub change_inbound_type-leave_tun :
    (o : JsonObject) (type : String) {f : ProxyFieldSpec}
    → text_at "type" "" o ≡ "tun"
    → type ≢ "tun"
    → Memᴰ f tun_fields
    → f.path ≢ "udp_timeout"
    → get_path (change_inbound_type o type) f.path ≡ none
change_inbound_type-leave_tun o type {f} was leaves m other =
    let previous = text_at "type" "" o in
    change_inbound_type-strip o type f.path (λ e. leaves (sym e ∙ was))
      (every-mem tun_fields tun_test m)
    ∙ strip_inbound-IsGone o previous type f.path (
        enter_tun_keeps (IsGone f.path) previous type (leave_tun previous type o)
          (IsGone-All f.path (but_udp_timeout listen_fields))
          (leave_tun-IsGone o previous type was leaves (Memᴰ-but_udp_timeout tun_fields m other)))

-- An inbound that becomes a tun keeps no field of the listen table but `udp_timeout`.
pub change_inbound_type-enter_tun :
    (o : JsonObject) {f : ProxyFieldSpec}
    → text_at "type" "" o ≢ "tun"
    → Memᴰ f listen_fields
    → f.path ≢ "udp_timeout"
    → get_path (change_inbound_type o "tun") f.path ≡ none
change_inbound_type-enter_tun o {f} was m other =
    let previous = text_at "type" "" o in
    change_inbound_type-strip o "tun" f.path was (every-mem listen_fields listen_test m)
    ∙ strip_inbound-IsGone o previous "tun" f.path (
        enter_tun-IsGone (leave_tun previous "tun" o) previous was
          (Memᴰ-but_udp_timeout listen_fields m other))

-- A path apart from the type, from the three sections and from the fields of the old type, the tun
-- and the listen table keeps its value when the type changes.
pub change_inbound_type-frame :
    (o : JsonObject) (type q : String)
    → All (λ p. clashes p q ≡ false) ("type" ∷ "tls" ∷ "transport" ∷ "multiplex" ∷ [])
    → All (λ f. clashes f.path q ≡ false) (touched_fields (text_at "type" "" o))
    → get_path (change_inbound_type o type) q ≡ get_path o q
change_inbound_type-frame o type q (apart, (tls, (transport, (multiplex, _)))) untouched =
    let P : JsonObject → Type 0 = HasValue q (get_path o q) in
    elim (Bool-cases (text_at "type" "" o == type)) [
      | inl same ↦ ap (λ x. get_path x q) (change_inbound_type_same o type same)
      | inr other ↦
          change_inbound_type-strip o type q (false-ne _ type other) apart
          ∙ strip_inbound_keeps P (text_at "type" "" o) type o
              (All-map_imp (λ f. clashes f.path q ≡ false) (KeepsField P)
                (λ f h. value_kept q (get_path o q) f.path h) (touched_fields (text_at "type" "" o))
                untouched)
              (value_kept q _ "tls" tls) (value_kept q _ "transport" transport)
              (value_kept q _ "multiplex" multiplex) refl
    ]
