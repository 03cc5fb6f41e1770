-- ===== src/Policy/Dialog/Sections/Covered.antt =====
-- No field of a form is left out of its dialog.
use boxui.Base.{
  String, Bool, true, some, [], ◌∷◌, ◌++◌, ◌≡◌, refl, ◌||◌, every, includes, ◌==◌, or_else, Memᴰ,
  and-parts, Bool-cases, inl, inr, eq_iff, subst, every-All, All-mem, if◌then◌else◌,
}
use boxui.Form.{FieldTable, table_get}
use boxui.Policy.Kinds.{PolicyFieldKind as Kind, PolicyFieldRef as Ref, PolicyFieldSpec}
use boxui.Policy.Route.Fields.{route_match_fields}
use boxui.Policy.Dns.Fields.{dns_rule_match_fields}
use boxui.Policy.Dns.ServerFields.{dns_server_fields}
use boxui.Policy.Dialog.Sections.{
  route_basic_paths, route_domain_paths, route_process_paths, route_environment_paths,
  dns_basic_paths, dns_domain_paths, dns_process_paths, basic, dialer, tls, special, is_in_section,
}

abbrev pub is_shown : String → PolicyFieldSpec → Bool
is_shown type f =
    is_in_section type basic f.path
    || is_in_section type dialer f.path
    || is_in_section type tls f.path
    || is_in_section type special f.path

shown_table : every (λ entry. every (is_shown entry.0) entry.1) dns_server_fields ≡ true
unfolding is_in_section
shown_table = refl

-- Every field that a route rule matches by is in a section, and every one of a DNS rule, but for its
-- type, which has a control of its own, and its last field, which the basic section adds.
shown_route :
    every
      (λ f.
        includes
          (route_basic_paths ++ route_domain_paths ++ route_process_paths
            ++ route_environment_paths)
          f.path)
      route_match_fields
    ≡ true
shown_route = refl

shown_dns :
    every
      (λ f.
        includes
          ("type" ∷ "invert" ∷ dns_basic_paths ++ dns_domain_paths ++ dns_process_paths)
          f.path)
      dns_rule_match_fields
    ≡ true
shown_dns = refl

table_lem :
    (test : String → PolicyFieldSpec → Bool) (t : FieldTable Kind Ref) (type : String)
    (f : PolicyFieldSpec)
    → every (λ entry. every (test entry.0) entry.1) t ≡ true
    → Memᴰ f (or_else (table_get t type) [])
    → test type f ≡ true
unfolding table_get
table_lem test [] type f h m = elim m [ ]
table_lem test ((name, fields) ∷ t) type f h m =
    let (here, rest) =
      and-parts (every (test name) fields) (every (λ entry. every (test entry.0) entry.1) t) h in
    elim (Bool-cases (name == type)) [
      | inl e ↦
          let found =
            subst (λ b. Memᴰ f (or_else (if b then some fields else table_get t type) [])) e m in
          subst (λ s. test s f ≡ true) ((eq_iff name type).0 e)
            (All-mem (λ g. test name g ≡ true) fields (every-All (test name) fields here) found)
      | inr e ↦
          table_lem test t type f rest
            (subst (λ b. Memᴰ f (or_else (if b then some fields else table_get t type) [])) e m)
    ]

-- Whatever its type, each field that a DNS server of that type has is in one of the sections of the
-- server's dialog: the basic, the dialer, the TLS or the special one.
pub server_fields-covered :
    (type : String) (f : PolicyFieldSpec)
    → Memᴰ f (or_else (table_get dns_server_fields type) [])
    → is_shown type f ≡ true
server_fields-covered type f m = table_lem is_shown dns_server_fields type f shown_table m
