-- ===== src/Policy/FormModel/Access.antt =====
-- `getPolicyPath` after `setPolicyPath`, for dotted paths.
use boxui.Base.{String, Bool, true, false, Option, none, some, [], ◌∷◌, ◌≡◌, sym, ◌∙◌}
use boxui.Text.{split_dots, split_dots-cons}
use boxui.Json.{JsonValue, object, JsonObject, lookup}
use boxui.Policy.FormModel.{get_step, get_keys, get_policy_path, set_policy_path}
use boxui.Policy.FormModel.Paths.{
  overlaps, get_keys-update_ne, get_keys-update_self, get_keys-update-none, begins, get_keys-begins,
}

-- One of the two paths lies at or below the other.
unfoldable pub clashes : String → String → Bool
unfolding overlaps split_dots
clashes p q = overlaps (split_dots p) (split_dots q)

-- What is written at a path is read back from it: a value, or nothing after a removal.
pub get_policy_path-set_policy_path_self :
    (o : JsonObject) (path : String) (v : Option JsonValue)
    → get_policy_path (set_policy_path o path v) path ≡ v
unfolding get_policy_path set_policy_path
get_policy_path-set_policy_path_self o path v =
    let (k, ks, e) = split_dots-cons path in rw e (get_keys-update_self o k ks v)

-- A write changes no path but the written one, those below it and those above it.
pub get_policy_path-set_policy_path_ne :
    (o : JsonObject) (p q : String) (v : Option JsonValue)
    → clashes p q ≡ false
    → get_policy_path (set_policy_path o p v) q ≡ get_policy_path o q
unfolding get_policy_path set_policy_path clashes
get_policy_path-set_policy_path_ne o p q v h =
    get_keys-update_ne o (split_dots p) (split_dots q) v h

-- A removal brings no path into being.
pub get_policy_path-set_policy_path-none :
    (o : JsonObject) (p q : String)
    → get_policy_path o q ≡ none
    → get_policy_path (set_policy_path o p none) q ≡ none
unfolding get_policy_path set_policy_path
get_policy_path-set_policy_path-none o p q h =
    get_keys-update-none o (split_dots p) (split_dots q) h

-- The second path lies at or below the first.
unfoldable pub lies_below : String → String → Bool
unfolding begins split_dots
lies_below p q = begins (split_dots p) (split_dots q)

-- Nothing is left below a removed path.
pub get_policy_path-set_policy_path-below :
    (o : JsonObject) (p q : String)
    → lies_below p q ≡ true
    → get_policy_path (set_policy_path o p none) q ≡ none
unfolding get_policy_path lies_below
get_policy_path-set_policy_path-below o p q h =
    get_keys-begins (some (object (set_policy_path o p none))) (split_dots p) (split_dots q) h
      (get_policy_path-set_policy_path_self o p none)

-- A key with no dot is a path to a property of the object itself.
pub get_policy_path-lookup :
    (o : JsonObject) (key : String)
    → split_dots key ≡ key ∷ []
    → get_policy_path o key ≡ lookup key o
unfolding get_policy_path get_keys get_step
get_policy_path-lookup o key h = rw h

pub lookup-set_policy_path :
    (o : JsonObject) (key : String) (v : Option JsonValue)
    → split_dots key ≡ key ∷ []
    → lookup key (set_policy_path o key v) ≡ v
lookup-set_policy_path o key v h =
    sym (get_policy_path-lookup (set_policy_path o key v) key h)
    ∙ get_policy_path-set_policy_path_self o key v
