-- ===== src/Json/Print.antt =====
-- `String(value)` of a JSON value, and `value ?? other`.
use Prim.Native.String.{◌++◌}
use boxui.Base.{String, true, false, Option, none, some, ◌≡◌, refl}
use boxui.Text.{decimal}
use boxui.Json.{
  Number, natural, other_finite, infinite, JsonValue, null, boolean, number, string, array, object,
  JsonArray, nil, cons,
}

unfoldable pub number_text : Number → String
unfolding decimal
number_text (natural n) = decimal n
number_text (other_finite s) = s
number_text (infinite s) = s

-- What an array prints for an item with the text `t`.
abbrev pub item_text : JsonValue → String → String
item_text null t = ""
item_text _ t = t

-- An array prints its items joined by commas, null as nothing.
unfoldable mutual
  unfolding number_text

  pub to_string : JsonValue → String
  to_string null = "null"
  to_string (boolean true) = "true"
  to_string (boolean false) = "false"
  to_string (number n) = number_text n
  to_string (string s) = s
  to_string (array vs) = join_items vs
  to_string (object o) = "[object Object]"

  pub join_items : JsonArray → String
  join_items nil = ""
  join_items (cons v nil) = item_text v (to_string v)
  join_items (cons v (cons w ws)) = item_text v (to_string v) ++ "," ++ join_items (cons w ws)

-- `value ?? other`: null is replaced too.
unfoldable pub coalesce : Option JsonValue → JsonValue → JsonValue
coalesce none other = other
coalesce (some null) other = other
coalesce (some v) other = v

printed :
    to_string
      (array (cons null (cons (string "a") (cons (array (cons (number (natural 12)) nil)) nil))))
    ≡ ",a,12"
unfolding to_string
printed = refl
