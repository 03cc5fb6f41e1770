-- ===== src/Policy/Route/Transition/Values.antt =====
-- The kinds of JSON values that the forms tell apart, and the tests that decide them.
use mathlib.Core.Bool.{false≢true}
use boxui.Base.{
  ℕ, String, Bool, true, false, some, List, [], ◌∷◌, ◌||◌, ◌≡◌, ◌↔◌, ◌⊎◌, inl, inr, refl, every,
  All, and-parts,
}
use boxui.Json.{
  natural, other_finite, infinite, JsonValue, boolean, number, string, array, object, JsonArray,
  JsonObject, items,
}
use boxui.Policy.FormModel.{is_json_object}
use boxui.Policy.Route.Transition.{
  is_finite_number, is_string, is_boolean, is_array_of, is_primitive,
}

pub data IsString : JsonValue → Type 0 where
  a_string : (s : String) → IsString (string s)

pub data IsBoolean : JsonValue → Type 0 where
  a_boolean : (b : Bool) → IsBoolean (boolean b)

-- A whole number or another finite one.
pub data IsFinite : JsonValue → Type 0 where
  whole : (n : ℕ) → IsFinite (number (natural n))
  other : (s : String) → IsFinite (number (other_finite s))

pub data IsObject : JsonValue → Type 0 where
  an_object : (o : JsonObject) → IsObject (object o)

-- An array all of whose items are of a kind.
pub data IsArrayOf (P : JsonValue → Type 0) : JsonValue → Type 0 where
  an_array : (vs : JsonArray) → All P (items vs) → IsArrayOf P (array vs)

-- A string, a number of any kind or a Boolean.
pub data IsPrimitive : JsonValue → Type 0 where
  text : (s : String) → IsPrimitive (string s)
  truth : (b : Bool) → IsPrimitive (boolean b)
  finite : (v : JsonValue) → IsFinite v → IsPrimitive v
  infinity : (s : String) → IsPrimitive (number (infinite s))

pub is_string-IsString : (v : JsonValue) → (is_string v ≡ true) ↔ IsString v
unfolding is_string
is_string-IsString (string s) = ((λ e. a_string s), λ h. refl)
is_string-IsString _ = ((λ e. absurd (false≢true e)), λ h. elim h [ ])

pub is_boolean-IsBoolean : (v : JsonValue) → (is_boolean v ≡ true) ↔ IsBoolean v
unfolding is_boolean
is_boolean-IsBoolean (boolean b) = ((λ e. a_boolean b), λ h. refl)
is_boolean-IsBoolean _ = ((λ e. absurd (false≢true e)), λ h. elim h [ ])

pub is_finite_number-IsFinite : (v : JsonValue) → (is_finite_number v ≡ true) ↔ IsFinite v
unfolding is_finite_number
is_finite_number-IsFinite (number (natural n)) = ((λ e. whole n), λ h. refl)
is_finite_number-IsFinite (number (other_finite s)) = ((λ e. other s), λ h. refl)
is_finite_number-IsFinite _ = ((λ e. absurd (false≢true e)), λ h. elim h [ ])

pub is_json_object-IsObject : (v : JsonValue) → (is_json_object (some v) ≡ true) ↔ IsObject v
unfolding is_json_object
is_json_object-IsObject (object o) = ((λ e. an_object o), λ h. refl)
is_json_object-IsObject _ = ((λ e. absurd (false≢true e)), λ h. elim h [ ])

pub is_primitive-IsPrimitive : (v : JsonValue) → (is_primitive v ≡ true) ↔ IsPrimitive v
unfolding is_primitive
is_primitive-IsPrimitive (string s) = ((λ e. text s), λ h. refl)
is_primitive-IsPrimitive (boolean b) = ((λ e. truth b), λ h. refl)
is_primitive-IsPrimitive (number (natural n)) =
    ((λ e. finite (number (natural n)) (whole n)), λ h. refl)
is_primitive-IsPrimitive (number (other_finite s)) =
    ((λ e. finite (number (other_finite s)) (other s)), λ h. refl)
is_primitive-IsPrimitive (number (infinite s)) = ((λ e. infinity s), λ h. refl)
is_primitive-IsPrimitive _ = ((λ e. absurd (false≢true e)), λ h. elim h [ finite v f ↦ elim f [ ] ])

module _ (test : JsonValue → Bool) (P : JsonValue → Type 0)
    (test_iff : (v : JsonValue) → (test v ≡ true) ↔ P v) where
  every_iff : (vs : List JsonValue) → (every test vs ≡ true) ↔ All P vs
  every_iff [] = ((λ e. tt), λ h. refl)
  every_iff (v ∷ vs) = (
    (λ e.
        let (first, rest) = and-parts (test v) (every test vs) e in
        ((test_iff v).0 first, (every_iff vs).0 rest)),
    λ (p, h). rw ((test_iff v).1 p, (every_iff vs).1 h) refl,
  )

  pub is_array_of-IsArrayOf : (v : JsonValue) → (is_array_of test v ≡ true) ↔ IsArrayOf P v
  unfolding is_array_of
  is_array_of-IsArrayOf (array vs) = (
    (λ e. an_array vs ((every_iff (items vs)).0 e)),
    λ h. elim h [ an_array ws all ↦ (every_iff (items ws)).1 all ],
  )
  is_array_of-IsArrayOf _ = ((λ e. absurd (false≢true e)), λ h. elim h [ ])

-- One of two tests passes where one of two facts holds.
pub or_iff :
    {P Q : Type 0} (a b : Bool) → (a ≡ true) ↔ P → (b ≡ true) ↔ Q → ((a || b) ≡ true) ↔ (P ⊎ Q)
or_iff true b p q = ((λ e. inl (p.0 refl)), λ h. refl)
or_iff false b p q =
    ((λ e. inr (q.0 e)), λ h. elim h [ inl x ↦ absurd (false≢true (p.1 x)) | inr y ↦ q.1 y ])
