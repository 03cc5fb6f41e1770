-- ===== src/Proxy/FormModel/Removal.antt =====
-- What is left of an object once a path is removed, and once a type is stored.
use boxui.Base.{
  String, Bool, true, false, not, Option, none, some, ◌≡◌, ◌≢◌, subst, sym, ◌∙◌, ◌==◌, eq_iff,
  arith,
}
use boxui.Text.{split_dots}
use boxui.Json.{JsonValue, JsonObject, insert}
use boxui.Policy.FormModel.{set_policy_path, update}
use boxui.Policy.FormModel.Access.{
  clashes, get_policy_path-set_policy_path_self, get_policy_path-set_policy_path_ne,
  get_policy_path-set_policy_path-none,
}
use boxui.Proxy.FormModel.{get_path, set_path}
use boxui.Proxy.FormModel.Agreement.{get_path-agree, set_path-agree}

-- Removing the path keeps `P`.
abbrev pub Keeps : (JsonObject → Type 0) → String → Type 0
Keeps P path = (x : JsonObject) → P x → P (set_path x path none)

-- An absent path stays absent.
abbrev pub IsGone : String → JsonObject → Type 0
IsGone q x = get_path x q ≡ none

pub IsGone-kept : (q p : String) → Keeps (IsGone q) p
IsGone-kept q p x h =
    subst
      (λ (f : (JsonObject → String → Option JsonValue)
          × (JsonObject → String → Option JsonValue → JsonObject)).
        f.0 x q ≡ none → f.0 (f.1 x p none) q ≡ none)
      (λ i. (sym get_path-agree i, sym set_path-agree i))
      (get_policy_path-set_policy_path-none x p q) h

pub get_path-set_path_self :
    (o : JsonObject) (p : String) (v : Option JsonValue) → get_path (set_path o p v) p ≡ v
get_path-set_path_self o p v =
    subst
      (λ (f : (JsonObject → String → Option JsonValue)
          × (JsonObject → String → Option JsonValue → JsonObject)).
        f.0 (f.1 o p v) p ≡ v)
      (λ i. (sym get_path-agree i, sym set_path-agree i))
      (get_policy_path-set_policy_path_self o p v)

-- What leaves the path alone keeps its value.
abbrev pub HasValue : String → Option JsonValue → JsonObject → Type 0
HasValue q v x = get_path x q ≡ v

pub value_kept :
    (q : String) (v : Option JsonValue) (p : String) → clashes p q ≡ false → Keeps (HasValue q v) p
value_kept q v p apart x h =
    subst
      (λ (f : (JsonObject → String → Option JsonValue)
          × (JsonObject → String → Option JsonValue → JsonObject)).
        f.0 x q ≡ v → f.0 (f.1 x p none) q ≡ v)
      (λ i. (sym get_path-agree i, sym set_path-agree i))
      (λ e. get_policy_path-set_policy_path_ne x p q none apart ∙ e) h

-- Storing a type leaves every path apart from it alone.
pub get_path-insert-type :
    (o : JsonObject) (v : JsonValue) (q : String)
    → clashes "type" q ≡ false
    → get_path (insert "type" v o) q ≡ get_path o q
unfolding set_policy_path split_dots insert update
get_path-insert-type o v q apart =
    subst (λ (get : JsonObject → String → Option JsonValue). get (insert "type" v o) q ≡ get o q)
      (sym get_path-agree) (get_policy_path-set_policy_path_ne o "type" q (some v) apart)

abbrev pub is_apart_from_type : String → Bool
is_apart_from_type q = not (clashes "type" q)

pub apart_from_type : (q : String) → is_apart_from_type q ≡ true → clashes "type" q ≡ false
apart_from_type q h = ground arith

pub false-ne : (s t : String) → (s == t) ≡ false → s ≢ t
false-ne s t h e = ground (arith, eq_iff s t)
