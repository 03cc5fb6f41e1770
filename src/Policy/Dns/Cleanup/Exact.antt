-- ===== src/Policy/Dns/Cleanup/Exact.antt =====
-- What a cleanup leaves at each known field, and elsewhere.
use boxui.Base.{
  String, Bool, true, false, not, Option, none, some, List, [], ◌∷◌, ◌&&◌, ◌||◌, ◌≡◌, refl, ap, sym,
  subst, ◌∙◌, ◌==◌, eq_iff, ◌⊎◌, inl, inr, Memᴰ, All, All-mem, if◌then◌else◌, reduce, Bool-cases,
  is_none, any,
}
use mathlib.Core.Bool.{false≢true}
use boxui.Json.Laws.{lookup-delete}
use boxui.Text.{split_dots}
use boxui.Json.{JsonValue, object, JsonObject, lookup, delete}
use boxui.Policy.FormModel.{
  update, is_json_object, get_step, get_keys, get_policy_path, set_policy_path,
}
use boxui.Policy.FormModel.Paths.{get_keys-none}
use boxui.Policy.FormModel.Access.{clashes, get_policy_path-set_policy_path_ne}
use boxui.Policy.FormModel.Sieve.{Apart, sieve, sieve-frame, sieve-exact}
use boxui.Policy.Dns.Cleanup.{
  is_string_value, registry_types, supports_domain_resolver, prepare_domain_resolver_root,
  CleanupTransition, compatible_fields, unique_fields, is_kept, transition_cleanup_fields,
}
use boxui.Policy.Dns.Cleanup.Fields.{CleanupField, CleanupRegistry}

abbrev pub field_path : CleanupField → String
field_path f = f.path

-- The keys of a path apart from "domain_resolver", or strictly below it.
abbrev pub is_transparent : List String → Bool
is_transparent [] = false
is_transparent (k ∷ []) = not ("domain_resolver" == k)
is_transparent (k ∷ k' ∷ ks) = true

below_scalar :
    (v : Option JsonValue) (k : String) (ks : List String)
    → is_json_object v ≡ false
    → get_keys v (k ∷ ks) ≡ none
unfolding is_json_object get_keys get_step
below_scalar none k ks h = get_keys-none ks
below_scalar (some (object o)) k ks h = cc
below_scalar (some _) k ks h = get_keys-none ks

or-false-right : (a b : Bool) → (a || b) ≡ false → b ≡ false
or-false-right true b h = cc
or-false-right false b h = h

delete-transparent :
    (o : JsonObject) (keys : List String)
    → is_transparent keys ≡ true
    → is_json_object (lookup "domain_resolver" o) ≡ false
    → get_keys (some (object (delete "domain_resolver" o))) keys ≡ get_keys (some (object o)) keys
unfolding get_keys get_step
delete-transparent o [] t scalar = cc
delete-transparent o (k ∷ []) t scalar = elim (Bool-cases ("domain_resolver" == k)) [
  | inl same ↦ absurd (false≢true (rw same at t))
  | inr other ↦ rw (lookup-delete, other)
]
delete-transparent o (k ∷ k' ∷ ks) t scalar = elim (Bool-cases ("domain_resolver" == k)) [
  | inl same ↦
      rw (lookup-delete, same)
        (get_keys-none ks
          ∙ sym (
              below_scalar (lookup k o) k' ks
                (subst (λ j. is_json_object (lookup j o) ≡ false) ((eq_iff _ k).0 same) scalar)))
  | inr other ↦ rw (lookup-delete, other)
]

-- A `domain_resolver` that is no object has no value below it, before and after its removal.
removed-transparent :
    (o : JsonObject) (q : String)
    → is_transparent (split_dots q) ≡ true
    → is_json_object (lookup "domain_resolver" o) ≡ false
    → get_policy_path (set_policy_path o "domain_resolver" none) q ≡ get_policy_path o q
unfolding get_policy_path set_policy_path update split_dots
removed-transparent o q h scalar = delete-transparent o (split_dots q) h scalar

module _ (o : JsonObject) (registry : CleanupRegistry) (change : CleanupTransition) where
  prepare_cases :
      (prepare_domain_resolver_root o registry change ≡ o)
      ⊎ ((prepare_domain_resolver_root o registry change ≡ set_policy_path o "domain_resolver" none)
          × (is_json_object (lookup "domain_resolver" o) ≡ false))
  unfolding prepare_domain_resolver_root
  prepare_cases =
      elim (Bool-cases (any (supports_domain_resolver registry) (registry_types registry))) [
        | inr unsupported ↦ inl (rw unsupported)
        | inl supported ↦ elim (Bool-cases (is_none value || is_json_object value)) [
          | inl plain ↦ inl (rw (supported, plain))
          | inr odd ↦
              elim (Bool-cases
                (is_string_value value && supports_domain_resolver registry change.target)) [
                  | inl tag ↦ inl (rw (supported, odd, tag))
                  | inr untagged ↦ inr (rw (supported, odd, untagged), or-false-right _ _ odd)
                ]
        ]
      ]
    where
      value : Option JsonValue
      value = lookup "domain_resolver" o

  -- The root is prepared without a change at any path but "domain_resolver" itself.
  prepare-transparent :
      (q : String)
      → is_transparent (split_dots q) ≡ true
      → get_policy_path (prepare_domain_resolver_root o registry change) q ≡ get_policy_path o q
  prepare-transparent q h = elim prepare_cases [
    | inl same ↦ rw same
    | inr (removed, scalar) ↦ rw removed (removed-transparent o q h scalar)
  ]

  transition_cleanup_fields-sieve :
      transition_cleanup_fields o registry change
      ≡ reduce
          (sieve field_path (is_kept (compatible_fields registry change)))
          (prepare_domain_resolver_root o registry change)
          (unique_fields registry)
  unfolding transition_cleanup_fields sieve
  transition_cleanup_fields-sieve = refl

  -- A change sets one key after the cleanup; the key lies apart from the known fields.
  pub set-cleanup-exact :
      (key : String) (v : Option JsonValue) (f : CleanupField)
      → All (λ g. clashes key g.path ≡ false) (unique_fields registry)
      → All (λ g. is_transparent (split_dots g.path) ≡ true) (unique_fields registry)
      → Apart field_path (unique_fields registry)
      → Memᴰ f (unique_fields registry)
      → get_policy_path (set_policy_path (transition_cleanup_fields o registry change) key v) f.path
        ≡ (if is_kept (compatible_fields registry change) f (get_policy_path o f.path)
            then get_policy_path o f.path
            else none)
  set-cleanup-exact key v f free clear a m =
      get_policy_path-set_policy_path_ne (transition_cleanup_fields o registry change) key f.path v
        (All-mem (λ g. clashes key g.path ≡ false) (unique_fields registry) free m)
      ∙ rw transition_cleanup_fields-sieve (
          sieve-exact field_path (is_kept (compatible_fields registry change))
            (prepare_domain_resolver_root o registry change) (unique_fields registry) f a m)
      ∙ ap (λ w. if is_kept (compatible_fields registry change) f w then w else none)
          (prepare-transparent f.path (
            All-mem (λ g. is_transparent (split_dots g.path) ≡ true) (unique_fields registry) clear
              m))

  pub set-cleanup-frame :
      (key q : String) (v : Option JsonValue)
      → clashes key q ≡ false
      → is_transparent (split_dots q) ≡ true
      → All (λ f. clashes f.path q ≡ false) (unique_fields registry)
      → get_policy_path (set_policy_path (transition_cleanup_fields o registry change) key v) q
        ≡ get_policy_path o q
  set-cleanup-frame key q v h clear hs =
      get_policy_path-set_policy_path_ne (transition_cleanup_fields o registry change) key q v h
      ∙ rw transition_cleanup_fields-sieve (
          sieve-frame field_path (is_kept (compatible_fields registry change))
            (prepare_domain_resolver_root o registry change) (unique_fields registry) q hs)
      ∙ prepare-transparent q clear
