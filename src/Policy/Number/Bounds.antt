-- ===== src/Policy/Number/Bounds.antt =====
-- The values that a number transform stores.
pub mod Marks
use mathlib.Core.Bool.{false≢true}
use mathlib.Core.Option
use boxui.Base.{
  ℕ, String, true, Option, none, some, List, [], ◌∷◌, ◌≡◌, inl, inr, refl, arith, ◌≤◌, map, All,
  Option-cases, Bool-cases, and-parts, ◌&&◌, Memᴰ, nat_eq,
}
use boxui.Text.Trim.{trim, is_blank}
use boxui.Json.{JsonValue, string, number, natural, array, from_items, JsonObject}
use Marks.{IsMark, string_mark-IsMark}
use boxui.Policy.Kinds.{PolicyFieldSpec}
use boxui.Policy.FormModel.{set_policy_path}
use boxui.Policy.Dialog.{TransformResult}
use boxui.Policy.Number.{
  NumberKind, integer, list_of_integers, mark, PolicyNumberConstraint, max_safe_integer, is_allowed,
  decimal_integer, list_tokens, all_some, integer_list, string_mark, constraint_of, numbers,
  set_or_reject, constrained, is_mark, is_integer_list, create_policy_number_transform,
  transform_by, other_kind,
}

-- A number that the constraint admits.
unfoldable pub IsWithin : PolicyNumberConstraint → ℕ → Type 0
IsWithin constraint n =
    (n ≤ constraint.maximum) × (n ≤ max_safe_integer) × (is_allowed constraint.allowed n ≡ true)

-- The allowed values, where there are such, hold the number.
abbrev pub IsListed : Option (List ℕ) → ℕ → Type 0
IsListed none n = Unit
IsListed (some allowed) n = Memᴰ n allowed

-- A number that may be stored: at most the maximum, exact, and among the allowed values.
unfoldable pub IsAdmitted : PolicyNumberConstraint → ℕ → Type 0
IsAdmitted constraint n =
    (n ≤ constraint.maximum) × (n ≤ 9007199254740991) × IsListed constraint.allowed n

-- What may stand at the field's path: nothing, a mark's text, a number or a list of numbers.
pub data IsStored (constraint : PolicyNumberConstraint) : Option JsonValue → Type 0 where
  cleared : IsStored constraint none
  marked :
      (token : String)
      → constraint.kind ≡ mark
      → IsMark constraint.maximum token
      → IsStored constraint (some (string token))
  listed :
      (ns : List ℕ)
      → All (IsAdmitted constraint) ns
      → IsStored constraint (some (array (from_items (map (λ n. number (natural n)) ns))))
  numbered : (n : ℕ) → IsAdmitted constraint n → IsStored constraint (some (number (natural n)))

is_allowed-IsListed :
    (allowed : Option (List ℕ)) (n : ℕ) → is_allowed allowed n ≡ true → IsListed allowed n
is_allowed-IsListed none n h = tt
is_allowed-IsListed (some []) n h = absurd (false≢true h)
is_allowed-IsListed (some (a ∷ allowed)) n h = elim (Bool-cases (nat_eq a n)) [
  | inl e ↦ Memᴰ.head (ground (arith, e))
  | inr e ↦ Memᴰ.tail (is_allowed-IsListed (some allowed) n (ground (arith, e, h)))
]

IsWithin-IsAdmitted :
    (constraint : PolicyNumberConstraint) (n : ℕ) → IsWithin constraint n → IsAdmitted constraint n
unfolding IsWithin IsAdmitted
IsWithin-IsAdmitted constraint n (h, safe, allowed) =
    (h, safe, is_allowed-IsListed constraint.allowed n allowed)

is_mark-mark : (kind : NumberKind) → is_mark kind ≡ true → kind ≡ mark
is_mark-mark integer h = absurd (false≢true h)
is_mark-mark list_of_integers h = absurd (false≢true h)
is_mark-mark mark h = refl

pub decimal_integer-IsWithin :
    (raw : String) (constraint : PolicyNumberConstraint) (n : ℕ)
    → decimal_integer raw constraint ≡ some n
    → IsWithin constraint n
unfolding decimal_integer IsWithin
decimal_integer-IsWithin raw constraint n h = ground arith

module _ {ℓ} {A : Type ℓ} (P : A → Type 0) where
  -- What holds of the values, where there are any.
  abbrev pub Every : Option (List A) → Type 0
  Every none = Unit
  Every (some ns) = All P ns

  Every-cons :
      (n : A) (rest : Option (List A)) → P n → Every rest → Every (Option.map (λ ns. n ∷ ns) rest)
  Every-cons n none p h = tt
  Every-cons n (some ns) p h = (p, h)

  pub all_some-Every :
      (read : String → Option A)
      → ((t : String) (n : A) → read t ≡ some n → P n)
      → (tokens : List String) → Every (all_some (map read tokens))
  all_some-Every read h [] = tt
  all_some-Every read h (t ∷ tokens) = elim (Option-cases (read t)) [
    | inl e ↦ rw e tt
    | inr (n, e) ↦
        rw e (Every-cons n (all_some (map read tokens)) (h t n e) (all_some-Every read h tokens))
  ]

decimal_integer-IsAdmitted :
    (raw : String) (constraint : PolicyNumberConstraint) (n : ℕ)
    → decimal_integer raw constraint ≡ some n
    → IsAdmitted constraint n
decimal_integer-IsAdmitted raw constraint n h =
    IsWithin-IsAdmitted constraint n (decimal_integer-IsWithin raw constraint n h)

integer_list-Every :
    (constraint : PolicyNumberConstraint) (raw : String)
    → Every (IsAdmitted constraint) (integer_list raw constraint)
unfolding integer_list
integer_list-Every constraint raw =
    all_some-Every (IsAdmitted constraint) (λ token. decimal_integer token constraint)
      (λ token. decimal_integer-IsAdmitted token constraint) (list_tokens raw)

module _ (constraint : PolicyNumberConstraint) (o : JsonObject) (path : String) where
  -- What a result of the transform stores.
  unfoldable pub StoresWithin : TransformResult → Type 0
  StoresWithin TransformResult.undefined = Unit
  StoresWithin TransformResult.rejected = Unit
  StoresWithin (TransformResult.transformed next) =
      (value : Option JsonValue) × IsStored constraint value × (next ≡ set_policy_path o path value)

  list-StoresWithin :
      (ns : Option (List ℕ))
      → Every (IsAdmitted constraint) ns
      → StoresWithin (set_or_reject o path (Option.map numbers ns))
  unfolding StoresWithin
  list-StoresWithin none h = tt
  list-StoresWithin (some ns) h = (some (numbers ns), listed ns h, refl)

  number-StoresWithin :
      (n : Option ℕ)
      → ((m : ℕ) → n ≡ some m → IsAdmitted constraint m)
      → StoresWithin (set_or_reject o path (Option.map (λ m. number (natural m)) n))
  unfolding StoresWithin
  number-StoresWithin none h = tt
  number-StoresWithin (some m) h = (some (number (natural m)), numbered m (h m refl), refl)

  constrained-StoresWithin : (raw : String) → StoresWithin (constrained constraint o path raw)
  unfolding constrained StoresWithin
  constrained-StoresWithin raw = elim (Bool-cases (is_blank (trim raw))) [
    | inl e ↦ rw e (none, cleared, refl)
    | inr e ↦
        elim (Bool-cases (is_mark constraint.kind && string_mark (trim raw) constraint.maximum)) [
          | inl m ↦
              let (kind, fits) =
                and-parts (is_mark constraint.kind) (string_mark (trim raw) constraint.maximum) m in
              rw (e, m)
                (
                  some (string (trim raw)),
                  marked (trim raw) (is_mark-mark constraint.kind kind)
                      (string_mark-IsMark (trim raw) constraint.maximum fits),
                  refl,
                )
          | inr m ↦ elim (Bool-cases (is_integer_list constraint.kind)) [
            | inl l ↦
                rw (e, m, l)
                  (list-StoresWithin (integer_list raw constraint)
                    (integer_list-Every constraint raw))
            | inr l ↦
                rw (e, m, l)
                  (number-StoresWithin (decimal_integer (trim raw) constraint)
                    (decimal_integer-IsAdmitted (trim raw) constraint))
          ]
        ]
  ]

module _ (constraints : List (String × PolicyNumberConstraint)) (o : JsonObject)
    (f : PolicyFieldSpec) where
  -- For a field that has a constraint, a transform that succeeds sets the field's path to nothing, to
  -- the text of a mark that is at most the maximum, or to a whole number or a list of whole numbers,
  -- each at most the maximum, exact, and among the allowed values where there are such.
  pub create_policy_number_transform-StoresWithin :
      (constraint : PolicyNumberConstraint) (raw : String)
      → constraint_of constraints f.path ≡ some constraint
      → StoresWithin constraint o f.path (create_policy_number_transform constraints o f raw)
  unfolding create_policy_number_transform transform_by StoresWithin
  create_policy_number_transform-StoresWithin constraint raw h =
      rw h (elim (Bool-cases (other_kind constraint f)) [
        | inl e ↦ rw e tt
        | inr e ↦ rw e (constrained-StoresWithin constraint o f.path raw)
      ])
