-- ===== src/Proxy/Outbound/Change/Removals.antt =====
-- `changeOutboundType` is a row of removals: what each keeps, all keep.
use boxui.Base.{
  String, false, Option, none, List, [], ◌∷◌, ◌++◌, ◌≡◌, subst, sym, Memᴰ, All, All-split, All-of,
  includes, distinct, reduce, Bool-cases, inl, inr,
}
use boxui.Json.{JsonValue, JsonObject}
use boxui.Proxy.Kinds.{ProxyFieldSpec}
use boxui.Proxy.FormModel.{get_path, set_path}
use boxui.Proxy.FormModel.Removal.{Keeps, IsGone, IsGone-kept, get_path-set_path_self}
use boxui.Proxy.Outbound.Fields.{
  server_types, dialer_types, outbound_tls_types, outbound_transport_types,
  outbound_multiplex_types, dialer_fields,
}
use boxui.Proxy.Outbound.Sections.{credential_paths, tls_credential_paths}
use boxui.Proxy.Outbound.Change.{
  known_protocol_fields, remove_path, field_paths, remove_paths, remove_fields, is_compatible,
  remove_incompatible_path, remove_incompatible_fields, drop_server, drop_dialer, drop_section,
  strip_outbound,
}

abbrev section_paths : List String
section_paths = "tls" ∷ "transport" ∷ "multiplex" ∷ []

abbrev secret_paths : List String
secret_paths = credential_paths ++ tls_credential_paths ++ section_paths

-- Every path that `changeOutboundType` may remove.
abbrev pub touched_paths : List String
touched_paths =
    ("server" ∷ "server_port" ∷ [])
    ++ field_paths dialer_fields
    ++ distinct (field_paths known_protocol_fields)
    ++ secret_paths

module _ (P : JsonObject → Type 0) where
  pub remove_paths_keeps :
      (o : JsonObject) (paths : List String) → All (Keeps P) paths → P o → P (remove_paths o paths)
  unfolding remove_paths
  remove_paths_keeps o [] k h = h
  remove_paths_keeps o (p ∷ paths) (k, ks) h = remove_paths_keeps (remove_path o p) paths ks (k o h)

  remove_fields_keeps :
      (o : JsonObject) (fields : List ProxyFieldSpec)
      → All (Keeps P) (field_paths fields)
      → P o
      → P (remove_fields o fields)
  unfolding remove_fields
  remove_fields_keeps o [] k h = h
  remove_fields_keeps o (f ∷ fields) (k, ks) h =
      remove_fields_keeps (set_path o f.path none) fields ks (k o h)

  remove_incompatible_path_keeps :
      (target : List ProxyFieldSpec) (o : JsonObject) (path : String)
      → Keeps P path
      → P o
      → P (remove_incompatible_path target o path)
  unfolding remove_incompatible_path
  remove_incompatible_path_keeps target o path k h =
      elim (Bool-cases (is_compatible target path (get_path o path))) [
        | inl fits ↦ rw fits h
        | inr odd ↦ rw odd (k o h)
      ]

  reduce_incompatible_keeps :
      (target : List ProxyFieldSpec) (o : JsonObject) (paths : List String)
      → All (Keeps P) paths
      → P o
      → P (reduce (remove_incompatible_path target) o paths)
  unfolding reduce
  reduce_incompatible_keeps target o [] k h = h
  reduce_incompatible_keeps target o (p ∷ paths) (k, ks) h =
      reduce_incompatible_keeps target (remove_incompatible_path target o p) paths ks
        (remove_incompatible_path_keeps target o p k h)

  pub remove_incompatible_fields_keeps :
      (o : JsonObject) (known target : List ProxyFieldSpec)
      → All (Keeps P) (distinct (field_paths known))
      → P o
      → P (remove_incompatible_fields o known target)
  unfolding remove_incompatible_fields
  remove_incompatible_fields_keeps o known target k h =
      reduce_incompatible_keeps target o (distinct (field_paths known)) k h

  drop_server_keeps :
      (type : String) (o : JsonObject)
      → Keeps P "server"
      → Keeps P "server_port"
      → P o
      → P (drop_server type o)
  unfolding drop_server
  drop_server_keeps type o k k' h = elim (Bool-cases (includes server_types type)) [
    | inl serves ↦ rw serves h
    | inr other ↦ rw other (k' (set_path o "server" none) (k o h))
  ]

  drop_dialer_keeps :
      (type : String) (o : JsonObject)
      → All (Keeps P) (field_paths dialer_fields)
      → P o
      → P (drop_dialer type o)
  unfolding drop_dialer
  drop_dialer_keeps type o k h = elim (Bool-cases (includes dialer_types type)) [
    | inl dials ↦ rw dials h
    | inr other ↦ rw other (remove_fields_keeps o dialer_fields k h)
  ]

  pub drop_section_keeps :
      (types : List String) (path type : String) (o : JsonObject)
      → Keeps P path
      → P o
      → P (drop_section types path type o)
  unfolding drop_section
  drop_section_keeps types path type o k h = elim (Bool-cases (includes types type)) [
    | inl has ↦ rw has h
    | inr lacks ↦ rw lacks (k o h)
  ]

  -- What the removal of each touched path keeps is kept from the copy to the new type.
  pub strip_outbound_keeps :
      (type : String) (o : JsonObject)
      → All (Keeps P) touched_paths
      → P o
      → P (strip_outbound type o)
  unfolding strip_outbound
  strip_outbound_keeps type o (k, (k', ks)) h =
      let known_paths = distinct (field_paths known_protocol_fields) in
      let (dialer, ks') =
        All-split (Keeps P) (field_paths dialer_fields) (known_paths ++ secret_paths) ks in
      let (known, ks'') = All-split (Keeps P) known_paths secret_paths ks' in
      let (credentials, rest) =
        All-split (Keeps P) credential_paths (tls_credential_paths ++ section_paths) ks'' in
      let (tls_credentials, sections) =
        All-split (Keeps P) tls_credential_paths section_paths rest in
      drop_section_keeps outbound_multiplex_types "multiplex" type _ sections.1.1.0 (
        drop_section_keeps outbound_transport_types "transport" type _ sections.1.0 (
          drop_section_keeps outbound_tls_types "tls" type _ sections.0 (
            remove_paths_keeps _ tls_credential_paths tls_credentials (
              remove_paths_keeps _ credential_paths credentials (
                remove_incompatible_fields_keeps _ known_protocol_fields _ known
                  (drop_dialer_keeps type _ dialer (drop_server_keeps type o k k' h)))))))

-- A removed path is gone after the row of removals.
pub remove_paths-IsGone :
    (o : JsonObject) (paths : List String) {q : String}
    → Memᴰ q paths
    → IsGone q (remove_paths o paths)
unfolding remove_paths reduce
remove_paths-IsGone o [] m = elim m [ ]
remove_paths-IsGone o (p ∷ paths) {q} (Memᴰ.head e) =
    remove_paths_keeps (IsGone q) (remove_path o p) paths
      (All-of (Keeps (IsGone q)) (IsGone-kept q) paths)
      (subst (λ r. IsGone r (set_path o p none)) (sym e) (get_path-set_path_self o p none))
remove_paths-IsGone o (p ∷ paths) (Memᴰ.tail m) = remove_paths-IsGone (remove_path o p) paths m

remove_incompatible_path-foreign :
    (target : List ProxyFieldSpec) (o : JsonObject) (q : String)
    → ((v : Option JsonValue) → is_compatible target q v ≡ false)
    → IsGone q (remove_incompatible_path target o q)
unfolding remove_incompatible_path
remove_incompatible_path-foreign target o q h =
    rw (h (get_path o q)) (get_path-set_path_self o q none)

-- A known path that no field of the new type has is gone once the incompatible ones are removed.
pub reduce_incompatible-foreign :
    (target : List ProxyFieldSpec) (o : JsonObject) (paths : List String) {q : String}
    → ((v : Option JsonValue) → is_compatible target q v ≡ false)
    → Memᴰ q paths
    → IsGone q (reduce (remove_incompatible_path target) o paths)
unfolding reduce
reduce_incompatible-foreign target o [] h m = elim m [ ]
reduce_incompatible-foreign target o (p ∷ paths) {q} h (Memᴰ.head e) =
    reduce_incompatible_keeps (IsGone q) target (remove_incompatible_path target o p) paths
      (All-of (Keeps (IsGone q)) (IsGone-kept q) paths)
      (subst (λ r. IsGone q (remove_incompatible_path target o r)) e
        (remove_incompatible_path-foreign target o q h))
reduce_incompatible-foreign target o (p ∷ paths) h (Memᴰ.tail m) =
    reduce_incompatible-foreign target (remove_incompatible_path target o p) paths h m
