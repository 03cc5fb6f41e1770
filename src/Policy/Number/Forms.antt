-- ===== src/Policy/Number/Forms.antt =====
-- ui/src/features/policy: route-form-transform.ts, the transforms of dns-form-model.ts, and
-- policy-field-update.ts. `toUpperCase` and `Number` on a text are the parameters `to_upper` and
-- `to_number`, the second `none` where the number is not finite.
pub mod Listed
pub mod Stored
use mathlib.Core.Option
use boxui.Base.{
  ℕ, String, Bool, true, false, Option, none, some, List, [], ◌∷◌, ◌==◌, ◌||◌, ◌&&◌, map, ltb,
  length, is_none, includes, reduce, if◌then◌else◌,
}
use boxui.Text.Trim.{trim, is_blank, join}
use boxui.Json.{
  JsonValue, Number, boolean, string, number, array, natural, items, from_items, JsonObject,
}
use boxui.Json.Print.{to_string}
use boxui.Policy.Kinds.{PolicyFieldKind, PolicyFieldSpec}
use boxui.Policy.FormModel.{get_policy_path, set_policy_path}
use boxui.Policy.Dialog.{TransformResult}
use boxui.Policy.Number.{
  NumberKind, integer, list_of_integers, mark, PolicyNumberConstraint, decimal_integer, list_tokens,
  all_some, create_policy_number_transform, set_or_reject,
}

-- How the tables of constraints are written.
abbrev constraint :
    NumberKind → ℕ → Option (List ℕ) → Option PolicyFieldKind → PolicyNumberConstraint
constraint kind maximum allowed field_kind = record {
  kind = kind;
  maximum = maximum;
  allowed = allowed;
  field_kind = field_kind;
}

abbrev pub route_number_constraints : List (String × PolicyNumberConstraint)
route_number_constraints =
    ("ip_version", constraint integer 6 (some (4 ∷ 6 ∷ [])) none)
    ∷ ("source_port", constraint list_of_integers 65535 none none)
    ∷ ("port", constraint list_of_integers 65535 none none)
    ∷ ("user_id", constraint list_of_integers 2147483647 none none)
    ∷ ("override_port", constraint integer 65535 none none)
    ∷ ("fallback_delay", constraint integer 4294967295 none (some PolicyFieldKind.number))
    ∷ ("rewrite_ttl", constraint integer 4294967295 none none)
    ∷ ("default_domain_resolver.rewrite_ttl", constraint integer 4294967295 none none)
    ∷ ("domain_resolver.rewrite_ttl", constraint integer 4294967295 none none)
    ∷ ("default_mark", constraint mark 4294967295 none none)
    ∷ ("routing_mark", constraint mark 4294967295 none none)
    ∷ []

unfoldable pub transform_route_field : JsonObject → PolicyFieldSpec → String → TransformResult
unfolding create_policy_number_transform
transform_route_field = create_policy_number_transform route_number_constraints

abbrev pub dns_number_constraints : List (String × PolicyNumberConstraint)
dns_number_constraints =
    ("ip_version", constraint integer 6 (some (4 ∷ 6 ∷ [])) none)
    ∷ ("source_port", constraint list_of_integers 65535 none none)
    ∷ ("port", constraint list_of_integers 65535 none none)
    ∷ ("user_id", constraint list_of_integers 2147483647 none none)
    ∷ ("server_port", constraint integer 65535 none none)
    ∷ ("cache_capacity", constraint integer 4294967295 none none)
    ∷ ("rewrite_ttl", constraint integer 4294967295 none none)
    ∷ ("domain_resolver.rewrite_ttl", constraint integer 4294967295 none none)
    ∷ ("routing_mark", constraint mark 4294967295 none none)
    ∷ []

unfoldable pub query_type_names : List String
query_type_names =
    "A" ∷ "AAAA" ∷ "AFSDB" ∷ "AMTRELAY" ∷ "ANY" ∷ "APL" ∷ "ATMA" ∷ "AVC" ∷ "AXFR" ∷ "CAA"
    ∷ "CDNSKEY" ∷ "CDS" ∷ "CERT" ∷ "CNAME" ∷ "CSYNC" ∷ "DHCID" ∷ "DLV" ∷ "DNAME" ∷ "DNSKEY" ∷ "DS"
    ∷ "EID" ∷ "EUI48" ∷ "EUI64" ∷ "GID" ∷ "GPOS" ∷ "HINFO" ∷ "HIP" ∷ "HTTPS" ∷ "IPSECKEY" ∷ "ISDN"
    ∷ "IXFR" ∷ "KEY" ∷ "KX" ∷ "L32" ∷ "L64" ∷ "LOC" ∷ "LP" ∷ "MAILA" ∷ "MAILB" ∷ "MB" ∷ "MD" ∷ "MF"
    ∷ "MG" ∷ "MINFO" ∷ "MR" ∷ "MX" ∷ "NAPTR" ∷ "NID" ∷ "NIMLOC" ∷ "NINFO" ∷ "NS" ∷ "NSEC" ∷ "NSEC3"
    ∷ "NSEC3PARAM" ∷ "NULL" ∷ "NXNAME" ∷ "NXT" ∷ "None" ∷ "OPENPGPKEY" ∷ "OPT" ∷ "PTR" ∷ "PX"
    ∷ "RESINFO" ∷ "RKEY" ∷ "RP" ∷ "RRSIG" ∷ "RT" ∷ "Reserved" ∷ "SIG" ∷ "SMIMEA" ∷ "SOA" ∷ "SPF"
    ∷ "SRV" ∷ "SSHFP" ∷ "SVCB" ∷ "TA" ∷ "TALINK" ∷ "TKEY" ∷ "TLSA" ∷ "TSIG" ∷ "TXT" ∷ "UID"
    ∷ "UINFO" ∷ "UNSPEC" ∷ "URI" ∷ "X25" ∷ "ZONEMD" ∷ "NSAP-PTR" ∷ []

unfoldable pub rcode_names : List String
rcode_names =
    "NOERROR" ∷ "FORMERR" ∷ "SERVFAIL" ∷ "NXDOMAIN" ∷ "NOTIMP" ∷ "REFUSED" ∷ "YXDOMAIN" ∷ "YXRRSET"
    ∷ "NXRRSET" ∷ "NOTAUTH" ∷ "NOTZONE" ∷ "DSOTYPENI" ∷ "BADSIG" ∷ "BADKEY" ∷ "BADTIME" ∷ "BADMODE"
    ∷ "BADNAME" ∷ "BADALG" ∷ "BADTRUNC" ∷ "BADCOOKIE" ∷ []

-- `decimalInteger(raw, maximum)` of the DNS forms, which admits every value up to the maximum.
abbrev pub up_to : ℕ → PolicyNumberConstraint
up_to maximum = constraint integer maximum none none

-- `Array.isArray(current) || current === undefined`
abbrev pub is_list_or_absent : Option JsonValue → Bool
is_list_or_absent none = true
is_list_or_absent (some (array vs)) = true
is_list_or_absent (some _) = false

module _ (to_upper : String → String) where
  -- `queryTypeNames.get(name)`, a map from upper case to the name, where the last entry counts.
  abbrev pub keep_named : String → Option String → String → Option String
  keep_named upper found name = if to_upper name == upper then some name else found

  unfoldable pub query_type_named : String → Option String
  unfolding query_type_names
  query_type_named upper = reduce (keep_named upper) none query_type_names

  -- The number, or else the name.
  abbrev pub or_named : Option ℕ → Option String → Option JsonValue
  or_named (some n) name = some (number (natural n))
  or_named none name = Option.map string name

  unfoldable pub query_type_token : String → Option JsonValue
  unfolding query_type_named
  query_type_token raw =
      or_named (decimal_integer raw (up_to 65535)) (query_type_named (to_upper raw))

  -- `Array.isArray(current) || values.length > 1 || current === undefined ? values : values[0]`
  abbrev pub list_or_one : Bool → List JsonValue → JsonValue
  list_or_one as_list [] = array (from_items [])
  list_or_one as_list (v ∷ []) = if as_list then array (from_items (v ∷ [])) else v
  list_or_one as_list (v ∷ w ∷ values) = array (from_items (v ∷ w ∷ values))

  abbrev pub is_empty_list : List String → Bool
  is_empty_list [] = true
  is_empty_list (s ∷ rest) = false

  unfoldable pub transform_query_type : JsonObject → String → TransformResult
  unfolding query_type_token
  transform_query_type o raw =
      let tokens = list_tokens raw in
      if is_empty_list tokens
      then TransformResult.transformed (set_policy_path o "query_type" none)
      else set_or_reject o "query_type" (
          Option.map (list_or_one (is_list_or_absent (get_policy_path o "query_type")))
            (all_some (map query_type_token tokens)))

  -- `rcodeNames.has(name) ? setPolicyPath(object, "rcode", name) : null` after the number
  abbrev pub rcode_value : Option ℕ → String → Option JsonValue
  rcode_value (some n) name = some (number (natural n))
  rcode_value none name = if includes rcode_names name then some (string name) else none

  unfoldable pub transform_rcode : JsonObject → String → TransformResult
  unfolding rcode_names
  transform_rcode o raw =
      let token = trim raw in
      if is_blank token
      then TransformResult.transformed (set_policy_path o "rcode" none)
      else set_or_reject o "rcode"
          (rcode_value (decimal_integer token (up_to 4095)) (to_upper token))

  unfoldable pub transform_dns_field : JsonObject → PolicyFieldSpec → String → TransformResult
  unfolding transform_query_type transform_rcode create_policy_number_transform
  transform_dns_field o f raw =
      if f.path == "query_type"
      then transform_query_type o raw
      else if f.path == "rcode"
      then transform_rcode o raw
      else create_policy_number_transform dns_number_constraints o f raw

-- `parseList`: the tokens, where there is one
unfoldable pub parse_list : String → Option (List String)
unfolding list_tokens
parse_list raw = let tokens = list_tokens raw in if ltb 0 (length tokens) then some tokens else none

abbrev pub strings : List String → JsonValue
strings values = array (from_items (map string values))

-- ui/src/features/policy/policy-form-fields.tsx: `textValue`, the text that a field shows.
unfoldable pub text_value : Option JsonValue → String
text_value (some (array vs)) = join "\n" (map to_string (items vs))
text_value (some (string s)) = s
text_value (some (number n)) = to_string (number n)
text_value (some (boolean b)) = to_string (boolean b)
text_value _ = ""

module _ (to_number : String → Option Number) where
  abbrev pub set_numbers : JsonObject → String → Option (List Number) → Option JsonObject
  set_numbers o path none = none
  set_numbers o path (some ns) =
      some (set_policy_path o path (some (array (from_items (map number ns)))))

  abbrev pub update_number_list : JsonObject → String → Option (List String) → Option JsonObject
  update_number_list o path none = some (set_policy_path o path none)
  update_number_list o path (some values) = set_numbers o path (all_some (map to_number values))

  abbrev pub update_number : JsonObject → String → Option Number → Option JsonObject
  update_number o path none = none
  update_number o path (some n) = some (set_policy_path o path (some (number n)))

  -- `raw || undefined`
  abbrev pub update_text : JsonObject → String → String → JsonObject
  update_text o path raw = set_policy_path o path (if is_blank raw then none else some (string raw))

  -- The update of a field of a kind, `none` where the source returns null.
  unfoldable pub update_kind :
      Option PolicyFieldKind → JsonObject → String → String → Option JsonObject
  unfolding parse_list
  update_kind (some PolicyFieldKind.list) o path raw =
      some (set_policy_path o path (Option.map strings (parse_list raw)))
  update_kind (some PolicyFieldKind.number_list) o path raw =
      update_number_list o path (parse_list raw)
  update_kind (some PolicyFieldKind.number) o path raw =
      if raw == "" then some (set_policy_path o path none) else update_number o path (to_number raw)
  update_kind _ o path raw = some (update_text o path raw)

  unfoldable pub default_policy_field_update :
      JsonObject → PolicyFieldSpec → String → Option JsonObject
  unfolding update_kind
  default_policy_field_update o f raw = update_kind f.kind o f.path raw
