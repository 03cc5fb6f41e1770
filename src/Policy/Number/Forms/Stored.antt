-- ===== src/Policy/Number/Forms/Stored.antt =====
-- The query types and response codes that the DNS forms store.
use mathlib.Core.Option
use boxui.Base.{
  ℕ, String, Bool, true, false, Option, none, some, List, [], ◌∷◌, ◌≡◌, ◌⊎◌, inl, inr, refl, ap,
  subst, or_else, arith, ◌≤◌, map, All, includes, reduce, Bool-cases, ◌==◌, eq_refl, ◌||◌,
  if◌then◌else◌,
}
use boxui.Text.Trim.{trim, is_blank}
use boxui.Json.{JsonValue, string, number, array, natural, from_items, JsonObject}
use boxui.Policy.Dialog.{TransformResult}
use boxui.Policy.FormModel.{get_policy_path, set_policy_path}
use boxui.Policy.Number.{decimal_integer, list_tokens, all_some, set_or_reject}
use boxui.Policy.Number.Bounds.{IsWithin, decimal_integer-IsWithin, Every, all_some-Every}
use boxui.Policy.Number.Forms.{
  query_type_names, rcode_names, up_to, keep_named, query_type_named, or_named, query_type_token,
  is_list_or_absent, list_or_one, is_empty_list, transform_query_type, rcode_value, transform_rcode,
}

-- A number up to a maximum or a name of a list.
pub data IsCode (maximum : ℕ) (names : List String) : JsonValue → Type 0 where
  numbered : (n : ℕ) → n ≤ maximum → IsCode maximum names (number (natural n))
  named : (name : String) → includes names name ≡ true → IsCode maximum names (string name)

-- Nothing, a code or a list of codes.
pub data IsStoredCode (maximum : ℕ) (names : List String) : Option JsonValue → Type 0 where
  cleared : IsStoredCode maximum names none
  one : (v : JsonValue) → IsCode maximum names v → IsStoredCode maximum names (some v)
  several :
      (vs : List JsonValue)
      → All (IsCode maximum names) vs
      → IsStoredCode maximum names (some (array (from_items vs)))

unfoldable pub StoresCode : ℕ → List String → JsonObject → String → TransformResult → Type 0
StoresCode maximum names o path TransformResult.undefined = ⊥
StoresCode maximum names o path TransformResult.rejected = Unit
StoresCode maximum names o path (TransformResult.transformed next) =
    (value : Option JsonValue) × IsStoredCode maximum names value
    × (next ≡ set_policy_path o path value)

decimal_integer-small :
    (t : String) (maximum k : ℕ) → decimal_integer t (up_to maximum) ≡ some k → k ≤ maximum
unfolding IsWithin
decimal_integer-small t maximum k h = (decimal_integer-IsWithin t (up_to maximum) k h).0

module _ (to_upper : String → String) where
  keep_named-found :
      (upper n : String) (found : Option String) (name : String) (b : Bool)
      → keep_named to_upper upper found n ≡ some name
      → (found ≡ some name) ⊎ ((n == name || b) ≡ true)
  keep_named-found upper n found name b h = elim (Bool-cases (to_upper n == upper)) [
    | inl e ↦
        let same = subst (λ c. (if c then some n else found) ≡ some name) e h in
        inr (subst (λ m. (n == m || b) ≡ true) (ap (λ m. or_else m n) same) (rw (eq_refl n) refl))
    | inr e ↦ inl (subst (λ c. (if c then some n else found) ≡ some name) e h)
  ]

  reduce-named :
      (upper : String) (names : List String) (found : Option String) (name : String)
      → reduce (keep_named to_upper upper) found names ≡ some name
      → (found ≡ some name) ⊎ (includes names name ≡ true)
  unfolding reduce
  reduce-named upper [] found name h = inl h
  reduce-named upper (n ∷ names) found name h =
      elim (reduce-named upper names (keep_named to_upper upper found n) name h) [
        | inr later ↦ inr (ground arith)
        | inl now ↦ keep_named-found upper n found name (includes names name) now
      ]

  query_type_named-includes :
      (upper name : String)
      → query_type_named to_upper upper ≡ some name
      → includes query_type_names name ≡ true
  unfolding query_type_named
  query_type_named-includes upper name h = elim (reduce-named upper query_type_names none name h) [
    | inl e ↦ ground (arith, e)
    | inr e ↦ e
  ]

  or_named-IsCode :
      (n : Option ℕ) (m : Option String)
      → ((k : ℕ) → n ≡ some k → k ≤ 65535)
      → ((s : String) → m ≡ some s → includes query_type_names s ≡ true)
      → (v : JsonValue) → or_named to_upper n m ≡ some v
      → IsCode 65535 query_type_names v
  or_named-IsCode (some k) m small known v h =
      subst (IsCode 65535 query_type_names) (ap (λ o. or_else o v) h) (numbered k (small k refl))
  or_named-IsCode none none small known v h = ground (arith, h)
  or_named-IsCode none (some s) small known v h =
      subst (IsCode 65535 query_type_names) (ap (λ o. or_else o v) h) (named s (known s refl))

  rcode_value-IsCode :
      (n : Option ℕ) (s : String)
      → ((k : ℕ) → n ≡ some k → k ≤ 4095)
      → (o : JsonObject)
      → StoresCode 4095 rcode_names o "rcode" (set_or_reject o "rcode" (rcode_value to_upper n s))
  unfolding StoresCode
  rcode_value-IsCode (some k) s small o =
      (some (number (natural k)), one (number (natural k)) (numbered k (small k refl)), refl)
  rcode_value-IsCode none s small o = elim (Bool-cases (includes rcode_names s)) [
    | inl e ↦ rw e (some (string s), one (string s) (named s e), refl)
    | inr e ↦ rw e tt
  ]

  query_type_token-IsCode :
      (t : String) (v : JsonValue)
      → query_type_token to_upper t ≡ some v
      → IsCode 65535 query_type_names v
  unfolding query_type_token
  query_type_token-IsCode t v h =
      or_named-IsCode (decimal_integer t (up_to 65535)) (query_type_named to_upper (to_upper t))
        (decimal_integer-small t 65535) (query_type_named-includes (to_upper t)) v h

  list_or_one-IsStoredCode :
      (as_list : Bool) (vs : List JsonValue)
      → All (IsCode 65535 query_type_names) vs
      → IsStoredCode 65535 query_type_names (some (list_or_one to_upper as_list vs))
  list_or_one-IsStoredCode as_list [] h = several [] tt
  list_or_one-IsStoredCode true (v ∷ []) h = several (v ∷ []) h
  list_or_one-IsStoredCode false (v ∷ []) h = one v h.0
  list_or_one-IsStoredCode as_list (v ∷ w ∷ vs) h = several (v ∷ w ∷ vs) h

  codes-StoresCode :
      (o : JsonObject) (as_list : Bool) (vs : Option (List JsonValue))
      → Every (IsCode 65535 query_type_names) vs
      → StoresCode 65535 query_type_names o "query_type"
          (set_or_reject o "query_type" (Option.map (list_or_one to_upper as_list) vs))
  unfolding StoresCode
  codes-StoresCode o as_list none h = tt
  codes-StoresCode o as_list (some vs) h =
      (some (list_or_one to_upper as_list vs), list_or_one-IsStoredCode as_list vs h, refl)

  -- The query types of a DNS rule are set to nothing, to one code or to a list of codes, each a
  -- number up to 65535 or a name of the list, or the text is rejected.
  pub transform_query_type-StoresCode :
      (o : JsonObject) (raw : String)
      → StoresCode 65535 query_type_names o "query_type" (transform_query_type to_upper o raw)
  unfolding transform_query_type StoresCode
  transform_query_type-StoresCode o raw =
      elim (Bool-cases (is_empty_list to_upper (list_tokens raw))) [
        | inl e ↦ rw e (none, cleared, refl)
        | inr e ↦ rw e (
            codes-StoresCode o (is_list_or_absent (get_policy_path o "query_type"))
              (all_some (map (query_type_token to_upper) (list_tokens raw)))
              (all_some-Every (IsCode 65535 query_type_names) (query_type_token to_upper)
                query_type_token-IsCode (list_tokens raw)))
      ]

  -- The response code of a DNS action is set to nothing, to a number up to 4095 or to a name of the
  -- list, or the text is rejected.
  pub transform_rcode-StoresCode :
      (o : JsonObject) (raw : String)
      → StoresCode 4095 rcode_names o "rcode" (transform_rcode to_upper o raw)
  unfolding transform_rcode StoresCode
  transform_rcode-StoresCode o raw = elim (Bool-cases (is_blank (trim raw))) [
    | inl e ↦ rw e (none, cleared, refl)
    | inr e ↦ rw e (
        rcode_value-IsCode (decimal_integer (trim raw) (up_to 4095)) (to_upper (trim raw))
          (decimal_integer-small (trim raw) 4095) o)
  ]
