-- ===== src/Policy/Route/Change/Keys.antt =====
-- Reading back the type or the action that a change stores.
use boxui.Base.{
  String, Bool, true, false, Option, none, some, ◌≡◌, ◌≢◌, refl, ◌&&◌, ◌==◌, eq_iff, if◌then◌else◌,
  arith,
}
use boxui.Text.{split_dots}
use boxui.Json.{JsonValue, string, JsonObject, lookup}
use boxui.Json.Print.{to_string, coalesce}
use boxui.Policy.FormModel.{set_policy_path}
use boxui.Policy.FormModel.Access.{lookup-set_policy_path}
use boxui.Policy.Route.Change.{non_empty}

pub lookup-set-type :
    (o : JsonObject) (v : Option JsonValue) → lookup "type" (set_policy_path o "type" v) ≡ v
unfolding split_dots
lookup-set-type o v = lookup-set_policy_path o "type" v refl

pub lookup-set-action :
    (o : JsonObject) (v : Option JsonValue) → lookup "action" (set_policy_path o "action" v) ≡ v
unfolding split_dots
lookup-set-action o v = lookup-set_policy_path o "action" v refl

pub &&-left : (a b : Bool) → (a && b) ≡ true → a ≡ true
&&-left true b h = refl
&&-left false b h = h

pub ne-false : (s t : String) → s ≢ t → (s == t) ≡ false
ne-false s t h = ground (arith, eq_iff s t)

-- The default type is stored by leaving `type` out.
pub to_string-type :
    (type : String)
    → to_string
        (coalesce (if type == "default" then none else some (string type)) (string "default"))
      ≡ type
unfolding to_string coalesce
to_string-type type = ground (arith, eq_iff type "default")

pub to_string-action :
    (action : String) → to_string (coalesce (non_empty action) (string "")) ≡ action
unfolding to_string coalesce non_empty
to_string-action action = ground (arith, eq_iff action "")
