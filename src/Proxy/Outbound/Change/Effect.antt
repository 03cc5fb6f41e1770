-- ===== src/Proxy/Outbound/Change/Effect.antt =====
-- What `changeOutboundType` does to an outbound.
use boxui.Base.{
  String, true, false, none, ◌++◌, ◌≡◌, ◌≢◌, refl, ap, ◌∙◌, ◌==◌, eq_iff, Memᴰ, All, All-of,
  All-mem, All-map_imp, every, every-All, Memᴰ-split, Bool-cases, inl, inr,
}
use boxui.Json.{string, JsonObject}
use boxui.Json.Laws.{lookup-insert}
use boxui.Json.Print.{to_string, coalesce}
use boxui.Policy.FormModel.Access.{clashes}
use boxui.Policy.Route.Change.{text_at}
use boxui.Policy.Route.Change.Keys.{ne-false}
use boxui.Proxy.FormModel.{get_path}
use boxui.Proxy.FormModel.Removal.{
  Keeps, IsGone, IsGone-kept, HasValue, value_kept, get_path-insert-type, is_apart_from_type,
  apart_from_type, false-ne,
}
use boxui.Proxy.Outbound.Fields.{
  outbound_tls_types, outbound_transport_types, outbound_multiplex_types,
}
use boxui.Proxy.Outbound.Sections.{credential_paths, tls_credential_paths}
use boxui.Proxy.Outbound.Change.{drop_section, strip_outbound, change_outbound_type}
use boxui.Proxy.Outbound.Change.Removals.{
  touched_paths, drop_section_keeps, remove_paths-IsGone, remove_paths_keeps, strip_outbound_keeps,
}

-- A path apart from the type reads in the changed outbound as before the new type is stored.
pub change_outbound_type-strip :
    (o : JsonObject) (type q : String)
    → text_at "type" "" o ≢ type
    → clashes "type" q ≡ false
    → get_path (change_outbound_type o type) q ≡ get_path (strip_outbound type o) q
unfolding change_outbound_type
change_outbound_type-strip o type q changes apart =
    rw (ne-false _ type changes)
      (get_path-insert-type (strip_outbound type o) (string type) q apart)

-- After a change of type an outbound reads as of that type.
pub text_at-change_outbound_type :
    (o : JsonObject) (type : String) → text_at "type" "" (change_outbound_type o type) ≡ type
unfolding change_outbound_type text_at to_string coalesce
text_at-change_outbound_type o type = elim (Bool-cases (text_at "type" "" o == type)) [
  | inl same ↦ rw same ((eq_iff _ type).0 same)
  | inr other ↦ rw (other, lookup-insert)
]

pub sections-IsGone :
    (q type : String) (x : JsonObject)
    → IsGone q x
    → IsGone q (
        drop_section outbound_multiplex_types "multiplex" type (
          drop_section outbound_transport_types "transport" type
            (drop_section outbound_tls_types "tls" type x)))
sections-IsGone q type x h =
    drop_section_keeps (IsGone q) outbound_multiplex_types "multiplex" type _
      (IsGone-kept q "multiplex")
      (drop_section_keeps (IsGone q) outbound_transport_types "transport" type _
        (IsGone-kept q "transport")
        (drop_section_keeps (IsGone q) outbound_tls_types "tls" type x (IsGone-kept q "tls") h))

strip_outbound-credential :
    (o : JsonObject) (type : String) {q : String}
    → Memᴰ q credential_paths
    → IsGone q (strip_outbound type o)
unfolding strip_outbound
strip_outbound-credential o type {q} m = sections-IsGone q type _ (
    remove_paths_keeps (IsGone q) _ tls_credential_paths
      (All-of (Keeps (IsGone q)) (IsGone-kept q) tls_credential_paths)
      (remove_paths-IsGone _ credential_paths m))

strip_outbound-tls_credential :
    (o : JsonObject) (type : String) {q : String}
    → Memᴰ q tls_credential_paths
    → IsGone q (strip_outbound type o)
unfolding strip_outbound
strip_outbound-tls_credential o type {q} m =
    sections-IsGone q type _ (remove_paths-IsGone _ tls_credential_paths m)

change_outbound_type_same :
    (o : JsonObject) (type : String)
    → (text_at "type" "" o == type) ≡ true
    → change_outbound_type o type ≡ o
unfolding change_outbound_type
change_outbound_type_same o type same = rw same

secrets_test : every is_apart_from_type (credential_paths ++ tls_credential_paths) ≡ true
unfolding clashes
secrets_test = refl

strip_outbound-secret :
    (o : JsonObject) (type q : String)
    → Memᴰ q (credential_paths ++ tls_credential_paths)
    → IsGone q (strip_outbound type o)
strip_outbound-secret o type q m = elim (Memᴰ-split credential_paths tls_credential_paths m) [
  | inl here ↦ strip_outbound-credential o type here
  | inr there ↦ strip_outbound-tls_credential o type there
]

-- Where the type changes, no credential is carried over: none of the credential paths, those of the
-- TLS client included, has a value afterwards.
pub change_outbound_type-credentials :
    (o : JsonObject) (type : String) {q : String}
    → text_at "type" "" o ≢ type
    → Memᴰ q (credential_paths ++ tls_credential_paths)
    → get_path (change_outbound_type o type) q ≡ none
change_outbound_type-credentials o type {q} changes m =
    change_outbound_type-strip o type q changes (
      apart_from_type q (
        All-mem (λ p. is_apart_from_type p ≡ true) (credential_paths ++ tls_credential_paths)
          (every-All is_apart_from_type (credential_paths ++ tls_credential_paths) secrets_test) m))
    ∙ strip_outbound-secret o type q m

-- A path that a change of type does not touch, which lies neither at, above nor below one of the
-- removed paths or the type, keeps its value.
pub change_outbound_type-frame :
    (o : JsonObject) (type q : String)
    → clashes "type" q ≡ false
    → All (λ p. clashes p q ≡ false) touched_paths
    → get_path (change_outbound_type o type) q ≡ get_path o q
change_outbound_type-frame o type q apart untouched =
    elim (Bool-cases (text_at "type" "" o == type)) [
      | inl same ↦ ap (λ x. get_path x q) (change_outbound_type_same o type same)
      | inr other ↦
          change_outbound_type-strip o type q (false-ne _ type other) apart
          ∙ strip_outbound_keeps (HasValue q (get_path o q)) type o
              (All-map_imp (λ p. clashes p q ≡ false) (Keeps (HasValue q (get_path o q)))
                (λ p h. value_kept q (get_path o q) p h) touched_paths untouched)
              refl
    ]
