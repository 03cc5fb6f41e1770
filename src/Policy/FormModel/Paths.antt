-- ===== src/Policy/FormModel/Paths.antt =====
-- The laws of reading and writing a path.
use boxui.Base.{
  ap, String, Bool, true, false, Option, none, some, List, [], ◌∷◌, ◌&&◌, ◌≡◌, refl, sym, ◌∙◌,
  arith, ◌==◌, eq_iff, eq_refl, if◌then◌else◌, Bool-cases, inl, inr,
}
use mathlib.Core.Bool.{false≢true}
use boxui.Json.{JsonValue, object, JsonObject, empty, property, lookup, insert, delete, is_empty}
use boxui.Json.Laws.{lookup-insert, lookup-delete}
use boxui.Policy.FormModel.{child_of, get_step, get_keys, attach, update}

-- One of the two lists of keys begins with the other.
unfoldable pub overlaps : List String → List String → Bool
overlaps [] qs = true
overlaps (p ∷ ps) [] = true
overlaps (p ∷ ps) (q ∷ qs) = p == q && overlaps ps qs

pub get_keys-none : (qs : List String) → get_keys none qs ≡ none
unfolding get_keys get_step
get_keys-none [] = refl
get_keys-none (q ∷ qs) = get_keys-none qs

pub get_keys-child_of :
    (v : Option JsonValue) (q : String) (qs : List String)
    → get_keys (some (object (child_of v))) (q ∷ qs) ≡ get_keys v (q ∷ qs)
unfolding get_keys get_step child_of lookup
get_keys-child_of none q qs = refl
get_keys-child_of (some (object o)) q qs = refl
get_keys-child_of (some _) q qs = refl

lookup-attach :
    (k j : String) (u o : JsonObject)
    → lookup j (attach k u o)
      ≡ (if k == j then (if is_empty u then none else some (object u)) else lookup j o)
unfolding attach
lookup-attach k j u o =
    ground (arith, lookup-insert k j (object u) o, lookup-delete k j o, eq_iff k j)

-- Below the key that was attached, the child is read.
get_keys-attach_self :
    (k q : String) (qs : List String) (u o : JsonObject)
    → get_keys (lookup k (attach k u o)) (q ∷ qs) ≡ get_keys (some (object u)) (q ∷ qs)
unfolding get_keys get_step lookup
get_keys-attach_self k q qs empty o = simp (lookup-attach, eq_refl)
get_keys-attach_self k q qs (property i w u) o = simp (lookup-attach, eq_refl)

-- Beside the key that was attached, nothing changes.
lookup-attach_ne :
    (k j : String) (u o : JsonObject) → (k == j) ≡ false → lookup j (attach k u o) ≡ lookup j o
lookup-attach_ne k j u o h = rw (lookup-attach, h)

lookup-insert_ne :
    (k j : String) (v : JsonValue) (o : JsonObject)
    → (k == j) ≡ false
    → lookup j (insert k v o) ≡ lookup j o
lookup-insert_ne k j v o h = rw (lookup-insert, h)

lookup-delete_ne :
    (k j : String) (o : JsonObject) → (k == j) ≡ false → lookup j (delete k o) ≡ lookup j o
lookup-delete_ne k j o h = rw (lookup-delete, h)

&&-true : (b : Bool) → (b && true) ≡ b
&&-true true = refl
&&-true false = refl

-- A path that neither begins with the written one nor is its beginning keeps its value.
pub get_keys-update_ne :
    (o : JsonObject) (ps qs : List String) (v : Option JsonValue)
    → overlaps ps qs ≡ false
    → get_keys (some (object (update o ps v))) qs ≡ get_keys (some (object o)) qs
unfolding update overlaps get_keys get_step
get_keys-update_ne o [] qs v h = cc
get_keys-update_ne o (p ∷ []) [] v h = cc
get_keys-update_ne o (p ∷ []) (q ∷ qs) none h =
    ap (λ w. get_keys w qs) (lookup-delete_ne p q o (sym (&&-true (p == q)) ∙ h))
get_keys-update_ne o (p ∷ []) (q ∷ qs) (some v) h =
    ap (λ w. get_keys w qs) (lookup-insert_ne p q v o (sym (&&-true (p == q)) ∙ h))
get_keys-update_ne o (p ∷ p' ∷ ps) [] v h = cc
get_keys-update_ne o (p ∷ p' ∷ ps) (q ∷ []) v h =
    lookup-attach_ne p q (update (child_of (lookup p o)) (p' ∷ ps) v) o (sym (&&-true (p == q)) ∙ h)
get_keys-update_ne o (p ∷ p' ∷ ps) (q ∷ q' ∷ qs) v h = elim (Bool-cases (p == q)) [
  | inl same ↦
      let below = get_keys-update_ne (child_of (lookup p o)) (p' ∷ ps) (q' ∷ qs) v (rw same at h) in
      rw (← (eq_iff p q).0 same) (
        get_keys-attach_self p q' qs (update (child_of (lookup p o)) (p' ∷ ps) v) o
        ∙ below
        ∙ get_keys-child_of (lookup p o) q' qs)
  | inr other ↦
      ap (λ w. get_keys w (q' ∷ qs))
        (lookup-attach_ne p q (update (child_of (lookup p o)) (p' ∷ ps) v) o other)
]

-- What was written is read back: the value, or nothing.
pub get_keys-update_self :
    (o : JsonObject) (p : String) (ps : List String) (v : Option JsonValue)
    → get_keys (some (object (update o (p ∷ ps) v))) (p ∷ ps) ≡ v
unfolding update get_keys get_step
get_keys-update_self o p [] none = rw (lookup-delete, eq_refl)
get_keys-update_self o p [] (some v) = rw (lookup-insert, eq_refl)
get_keys-update_self o p (p' ∷ ps) v =
    get_keys-attach_self p p' ps (update (child_of (lookup p o)) (p' ∷ ps) v) o
    ∙ get_keys-update_self (child_of (lookup p o)) p' ps v

update-empty : (ps : List String) → update empty ps none ≡ empty
unfolding update delete lookup child_of attach
update-empty [] = refl
update-empty (p ∷ []) = refl
update-empty (p ∷ p' ∷ ps) = rw (update-empty (p' ∷ ps))

update-child-empty :
    (v : Option JsonValue) (ps : List String) → v ≡ none → update (child_of v) ps none ≡ empty
unfolding child_of
update-child-empty v ps h = rw h (update-empty ps)

-- Removing a path brings no path into being.
pub get_keys-update-none :
    (o : JsonObject) (ps qs : List String)
    → get_keys (some (object o)) qs ≡ none
    → get_keys (some (object (update o ps none))) qs ≡ none
unfolding update get_keys get_step
get_keys-update-none o [] qs h = h
get_keys-update-none o (p ∷ ps) [] h = cc
get_keys-update-none o (p ∷ []) (q ∷ qs) h = elim (Bool-cases (p == q)) [
  | inl same ↦ rw (lookup-delete, same) (get_keys-none qs)
  | inr other ↦ rw (lookup-delete, other) h
]
get_keys-update-none o (p ∷ p' ∷ ps) (q ∷ []) h = elim (Bool-cases (p == q)) [
  | inl same ↦
      let gone = update-child-empty (lookup p o) (p' ∷ ps) (rw ((eq_iff p q).0 same) h) in
      rw (lookup-attach, same, gone)
  | inr other ↦ rw (lookup-attach, other) h
]
get_keys-update-none o (p ∷ p' ∷ ps) (q ∷ q' ∷ qs) h = elim (Bool-cases (p == q)) [
  | inl same ↦
      let before = get_keys-child_of (lookup p o) q' qs ∙ rw ((eq_iff p q).0 same) h in
      rw (← (eq_iff p q).0 same) (
        get_keys-attach_self p q' qs (update (child_of (lookup p o)) (p' ∷ ps) none) o
        ∙ get_keys-update-none (child_of (lookup p o)) (p' ∷ ps) (q' ∷ qs) before)
  | inr other ↦
      ap (λ w. get_keys w (q' ∷ qs))
        (lookup-attach_ne p q (update (child_of (lookup p o)) (p' ∷ ps) none) o other)
      ∙ h
]

-- The first list of keys is a beginning of the second.
unfoldable pub begins : List String → List String → Bool
begins [] qs = true
begins (p ∷ ps) [] = false
begins (p ∷ ps) (q ∷ qs) = p == q && begins ps qs

-- Where a path has no value, the paths below it have none.
pub get_keys-begins :
    (v : Option JsonValue) (ps qs : List String)
    → begins ps qs ≡ true
    → get_keys v ps ≡ none
    → get_keys v qs ≡ none
unfolding begins get_keys
get_keys-begins v [] qs h e = rw e (get_keys-none qs)
get_keys-begins v (p ∷ ps) [] h e = cc
get_keys-begins v (p ∷ ps) (q ∷ qs) h e = elim (Bool-cases (p == q)) [
  | inl same ↦ rw (← (eq_iff p q).0 same) (get_keys-begins (get_step v p) ps qs (rw same at h) e)
  | inr other ↦ absurd (false≢true (rw other at h))
]
