-- ===== src/Policy/Dns/Change/Tables.antt =====
-- The cleanup tables list no path at, above or below another, and none that the keys "type" and
-- "action" touch: facts of the tables, by evaluation.
use boxui.Base.{String, Bool, true, false, ◌≡◌, refl, All, every, every-All}
use boxui.Text.{split_dots}
use boxui.Policy.FormModel.Access.{clashes}
use boxui.Policy.FormModel.Sieve.{
  Apart, apart_keys, split_paths, apart_from, apart_keys-Apart, apart_from-All,
}
use boxui.Policy.Dns.Cleanup.{unique_fields}
use boxui.Policy.Dns.Cleanup.Fields.{
  CleanupField, CleanupRegistry, dns_server_cleanup_fields, dns_rule_cleanup_fields,
  dns_action_cleanup_fields,
}
use boxui.Policy.FormModel.Carried.{are_distinct}
use boxui.Policy.Dns.Cleanup.Fits.{path_of, kind_of}
use boxui.Policy.Dns.Cleanup.Exact.{field_path, is_transparent}

abbrev is_clear : CleanupField → Bool
is_clear f = is_transparent (split_dots f.path)

abbrev Passes : CleanupRegistry → String → Type 0
Passes registry key =
    (apart_keys (split_paths field_path (unique_fields registry)) ≡ true)
    × (apart_from (split_dots key) (split_paths field_path (unique_fields registry)) ≡ true)
    × (every is_clear (unique_fields registry) ≡ true)

-- What a cleanup asks of its table.
pub record IsSound (registry : CleanupRegistry) (key : String) : Type 0 where
  pub apart : Apart field_path (unique_fields registry)
  pub free : All (λ g. clashes key g.path ≡ false) (unique_fields registry)
  pub clear : All (λ g. is_transparent (split_dots g.path) ≡ true) (unique_fields registry)

Passes-IsSound :
    (registry : CleanupRegistry) (key : String) → Passes registry key → IsSound registry key
Passes-IsSound registry key (apart, free, clear) = record {
  apart = apart_keys-Apart field_path (unique_fields registry) apart;
  free = (apart_from-All field_path key (unique_fields registry) free).0;
  clear = every-All is_clear (unique_fields registry) clear;
}

server_test : Passes dns_server_cleanup_fields "type"
unfolding apart_keys apart_from unique_fields split_dots
server_test = (refl, refl, refl)

rule_test : Passes dns_rule_cleanup_fields "type"
unfolding apart_keys apart_from unique_fields split_dots
rule_test = (refl, refl, refl)

action_test : Passes dns_action_cleanup_fields "action"
unfolding apart_keys apart_from unique_fields split_dots
action_test = (refl, refl, refl)

pub server-IsSound : IsSound dns_server_cleanup_fields "type"
server-IsSound = Passes-IsSound dns_server_cleanup_fields "type" server_test

pub rule-IsSound : IsSound dns_rule_cleanup_fields "type"
rule-IsSound = Passes-IsSound dns_rule_cleanup_fields "type" rule_test

pub action-IsSound : IsSound dns_action_cleanup_fields "action"
action-IsSound = Passes-IsSound dns_action_cleanup_fields "action" action_test

-- No server type, rule type or action has two fields of one path.
pub server_fields-distinct :
    every (λ entry. are_distinct path_of kind_of entry.1) dns_server_cleanup_fields ≡ true
server_fields-distinct = refl

pub rule_fields-distinct :
    every (λ entry. are_distinct path_of kind_of entry.1) dns_rule_cleanup_fields ≡ true
rule_fields-distinct = refl

pub action_fields-distinct :
    every (λ entry. are_distinct path_of kind_of entry.1) dns_action_cleanup_fields ≡ true
action_fields-distinct = refl
