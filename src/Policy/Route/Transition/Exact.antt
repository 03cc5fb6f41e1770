-- ===== src/Policy/Route/Transition/Exact.antt =====
-- What a transition leaves at each known field, and elsewhere.
use boxui.Base.{
  String, Bool, false, Option, none, some, List, ◌≡◌, refl, ◌∙◌, Memᴰ, All, All-mem, if◌then◌else◌,
  reduce,
}
use boxui.Json.{JsonValue, JsonObject}
use boxui.Policy.Kinds.{PolicyFieldSpec}
use boxui.Policy.FormModel.{get_policy_path, set_policy_path}
use boxui.Policy.FormModel.Access.{clashes, get_policy_path-set_policy_path_ne}
use boxui.Policy.FormModel.Sieve.{Apart, sieve, sieve-frame, sieve-exact}
use boxui.Policy.Route.Transition.{
  matches_field, map_get, FieldTransition, compatible_fields, transition_fields,
}

abbrev pub field_path : PolicyFieldSpec → String
field_path f = f.path

-- The new type has the field, and the value fits its kind.
unfoldable pub is_retained : List PolicyFieldSpec → PolicyFieldSpec → Option JsonValue → Bool
is_retained compatible f value = elim (map_get compatible f.path) [
  | none ↦ false
  | some target ↦ matches_field value target
]

-- The value that a field keeps: its own, or none.
abbrev pub retained : List PolicyFieldSpec → PolicyFieldSpec → Option JsonValue → Option JsonValue
retained compatible f value = if is_retained compatible f value then value else none

transition_fields-sieve :
    (o : JsonObject) (known : List PolicyFieldSpec) (transition : FieldTransition)
    → transition_fields o known transition
      ≡ reduce (sieve field_path (is_retained (compatible_fields transition))) o known
unfolding transition_fields sieve is_retained
transition_fields-sieve o known transition = refl

-- A change sets one key after the transition; the key lies apart from the known fields.
module _ (o : JsonObject) (known : List PolicyFieldSpec) (transition : FieldTransition)
    (key : String) (v : Option JsonValue) where
  pub set-transition-exact :
      (f : PolicyFieldSpec)
      → All (λ g. clashes key g.path ≡ false) known
      → Apart field_path known
      → Memᴰ f known
      → get_policy_path (set_policy_path (transition_fields o known transition) key v) f.path
        ≡ retained (compatible_fields transition) f (get_policy_path o f.path)
  set-transition-exact f free a m =
      get_policy_path-set_policy_path_ne (transition_fields o known transition) key f.path v
        (All-mem (λ g. clashes key g.path ≡ false) known free m)
      ∙ rw (transition_fields-sieve o known transition)
          (sieve-exact field_path (is_retained (compatible_fields transition)) o known f a m)

  pub set-transition-frame :
      (q : String)
      → clashes key q ≡ false
      → All (λ f. clashes f.path q ≡ false) known
      → get_policy_path (set_policy_path (transition_fields o known transition) key v) q
        ≡ get_policy_path o q
  set-transition-frame q h hs =
      get_policy_path-set_policy_path_ne (transition_fields o known transition) key q v h
      ∙ rw (transition_fields-sieve o known transition)
          (sieve-frame field_path (is_retained (compatible_fields transition)) o known q hs)
