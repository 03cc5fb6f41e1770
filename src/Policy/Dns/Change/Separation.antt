-- ===== src/Policy/Dns/Change/Separation.antt =====
-- The servers of ui/src/features/policy/dns-form-model.ts that share no field with one another, said
-- apart from the test of the types.
use mathlib.Core.Bool.{false≢true}
use boxui.Base.{
  String, true, false, some, List, ◌≡◌, ◌≢◌, ◌⊎◌, refl, sym, ◌∙◌, ◌&&◌, ◌==◌, eq_iff, Bool-cases,
  Option-cases, inl, inr, and-parts,
}
use boxui.Form.{table_get}
use boxui.Policy.Route.Change.Keys.{ne-false}
use boxui.Policy.Dns.Cleanup.Fields.{CleanupField, CleanupRegistry, dns_server_cleanup_fields}
use boxui.Policy.Dns.Change.{has_type, differ, are_separated}

-- One of two known types is the legacy one.
abbrev pub IsSeparation : String → String → Type 0
IsSeparation current type =
    ((source : List CleanupField) × (table_get dns_server_cleanup_fields current ≡ some source))
    × ((target : List CleanupField) × (table_get dns_server_cleanup_fields type ≡ some target))
    × ((current ≡ "legacy") ⊎ (type ≡ "legacy"))

has_type-known :
    (registry : CleanupRegistry) (type : String)
    → has_type registry type ≡ true
    → (fields : List CleanupField) × (table_get registry type ≡ some fields)
unfolding has_type
has_type-known registry type h = elim (Option-cases (table_get registry type)) [
  | inl e ↦ absurd (false≢true (rw e at h))
  | inr found ↦ found
]

legacy-differ :
    (current type : String)
    → differ (current == "legacy") (type == "legacy") ≡ true
    → (current ≡ "legacy") ⊎ (type ≡ "legacy")
legacy-differ current type h = elim (Bool-cases (current == "legacy")) [
  | inl e ↦ inl ((eq_iff current "legacy").0 e)
  | inr e ↦ inr ((eq_iff type "legacy").0 (rw e at h))
]

pub are_separated-IsSeparation :
    (current type : String) → are_separated current type ≡ true → IsSeparation current type
unfolding are_separated
are_separated-IsSeparation current type h =
    let known = has_type dns_server_cleanup_fields in
    let one = differ (current == "legacy") (type == "legacy") in
    let (both, differing) = and-parts (known current && known type) one h in
    let (source, target) = and-parts (known current) (known type) both in
    (
      has_type-known dns_server_cleanup_fields current source,
      has_type-known dns_server_cleanup_fields type target,
      legacy-differ current type differing,
    )

pub IsSeparation-are_separated :
    (current type : String)
    → current ≢ type
    → IsSeparation current type
    → are_separated current type ≡ true
unfolding are_separated has_type
IsSeparation-are_separated current type ne ((s, source), (t, target), inl e) =
    let other : (type == "legacy") ≡ false = ne-false type "legacy" (λ same. ne (e ∙ sym same)) in
    rw (source, target, (eq_iff current "legacy").1 e, other) refl
IsSeparation-are_separated current type ne ((s, source), (t, target), inr e) =
    let other : (current == "legacy") ≡ false =
      ne-false current "legacy" (λ same. ne (same ∙ sym e)) in
    rw (source, target, other, (eq_iff type "legacy").1 e) refl
