-- ===== src/Json.antt =====
-- JSON values as the panel holds them (ui/src/lib/api/types.ts: JsonPrimitive, JsonValue).
-- A number is a natural number or the text of any other number: the forms tell whole numbers from
-- the rest, compare them with bounds, and print them. -0 is read as 0, as JSON.stringify prints it.
-- An object is the list of its own properties in the order of insertion, with JavaScript's
-- `object[key]`, `next[key] = value` and `delete next[key]`. What an object inherits from
-- Object.prototype is left out: a key such as "constructor" reads as absent.
pub mod Laws
pub mod Print
use boxui.Base.{
  ℕ, String, Bool, true, false, Option, none, some, List, [], ◌∷◌, ◌&&◌, ◌==◌, nat_eq,
  if◌then◌else◌,
}

pub data Number : Type 0 where
  natural : ℕ → Number
  other_finite : String → Number
  infinite : String → Number

mutual
  pub data JsonValue : Type 0 where
    null : JsonValue
    boolean : Bool → JsonValue
    number : Number → JsonValue
    string : String → JsonValue
    array : JsonArray → JsonValue
    object : JsonObject → JsonValue

  pub data JsonArray : Type 0 where
    nil : JsonArray
    cons : JsonValue → JsonArray → JsonArray

  pub data JsonObject : Type 0 where
    empty : JsonObject
    property : String → JsonValue → JsonObject → JsonObject

abbrev pub items : JsonArray → List JsonValue
items nil = []
items (cons v vs) = v ∷ items vs

abbrev pub from_items : List JsonValue → JsonArray
from_items [] = nil
from_items (v ∷ vs) = cons v (from_items vs)

-- `object[key]`
unfoldable pub lookup : String → JsonObject → Option JsonValue
lookup key empty = none
lookup key (property name value rest) = if name == key then some value else lookup key rest

-- `next[key] = value`
unfoldable pub insert : String → JsonValue → JsonObject → JsonObject
insert key value empty = property key value empty
insert key value (property name old rest) =
    if name == key then property name value rest else property name old (insert key value rest)

-- `delete next[key]`
unfoldable pub delete : String → JsonObject → JsonObject
delete key empty = empty
delete key (property name value rest) =
    let others = delete key rest in if name == key then others else property name value others

-- `Object.keys(object)`
abbrev pub keys : JsonObject → List String
keys empty = []
keys (property name value rest) = name ∷ keys rest

abbrev pub is_empty : JsonObject → Bool
is_empty empty = true
is_empty (property name value rest) = false

abbrev number_same : Number → Number → Bool
number_same (natural n) (natural m) = nat_eq n m
number_same (other_finite s) (other_finite t) = s == t
number_same (infinite s) (infinite t) = s == t
number_same _ _ = false

abbrev bool_same : Bool → Bool → Bool
bool_same true true = true
bool_same false false = true
bool_same _ _ = false

-- `Object.is(item, value)` for an item of a constant and a value of a parsed object: two arrays or
-- two objects are then different references.
unfoldable pub same_value : JsonValue → JsonValue → Bool
same_value null null = true
same_value (boolean a) (boolean b) = bool_same a b
same_value (number a) (number b) = number_same a b
same_value (string a) (string b) = a == b
same_value _ _ = false
