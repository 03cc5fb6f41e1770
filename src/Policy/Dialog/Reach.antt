-- ===== src/Policy/Dialog/Reach.antt =====
-- The states that a dialog can reach, and what holds in each.
use boxui.Base.{
  String, Bool, true, false, Option, none, some, List, [], ◌∷◌, ◌≡◌, ◌⊎◌, inl, inr, refl,
  Bool-cases, includes, keep, not, ◌==◌, arith,
}
use boxui.Json.{JsonValue, JsonObject}
use boxui.Policy.FormModel.Tags.Offered.{HasNoRepeat, add_new-HasNoRepeat}
use boxui.Policy.Dialog.{
  DialogState, TransformResult, parse_object, open_dialog, update, update_json, update_validity,
  transform, accept_text,
}

module _ (parse : String → Option JsonValue) (stringify : JsonObject → String) where
  -- A dialog is opened on an item; then its fields are edited, its text is, a field is transformed or
  -- the validity of a field is told.
  pub data IsReachable (item : JsonObject) : DialogState → Type 0 where
    opened : IsReachable item (open_dialog parse stringify item)
    field_edited :
        (s : DialogState) (next : JsonObject)
        → IsReachable item s
        → IsReachable item (update parse stringify s next)
    text_edited :
        (s : DialogState) (text : String)
        → IsReachable item s
        → IsReachable item (update_json parse stringify s text)
    field_transformed :
        (s : DialogState) (path : String) (result : TransformResult)
        → IsReachable item s
        → IsReachable item (transform s path result)
    validity_told :
        (s : DialogState) (path : String) (valid : Bool)
        → IsReachable item s
        → IsReachable item (update_validity s path valid)

  -- The text is the printed object, or parses to the object, or is marked as no object and is none.
  unfoldable pub IsSynced : DialogState → Type 0
  IsSynced s =
      ((s.json_valid ≡ true) × (s.value ≡ stringify s.edited))
      ⊎ ((s.json_valid ≡ true) × (parse_object parse stringify s.value ≡ some s.edited))
      ⊎ ((s.json_valid ≡ false) × (parse_object parse stringify s.value ≡ none))

  accept_text-IsSynced :
      (s : DialogState) (text : String) (result : Option JsonObject)
      → parse_object parse stringify text ≡ result
      → IsSynced (accept_text s text result)
  unfolding IsSynced accept_text
  accept_text-IsSynced s text none broken = inr (inr (refl, broken))
  accept_text-IsSynced s text (some o) parsed = inr (inl (refl, parsed))

  transform-IsSynced :
      (s : DialogState) (path : String) (result : TransformResult)
      → IsSynced s
      → IsSynced (transform s path result)
  unfolding IsSynced transform update_validity
  transform-IsSynced s path TransformResult.undefined h = h
  transform-IsSynced s path TransformResult.rejected h = h
  transform-IsSynced s path (TransformResult.transformed next) h = h

  -- In every state that a dialog reaches, its two views agree: where the text counts as valid, it is
  -- the printed object or parses to the object, and where it does not, it parses to no object.
  pub reachable-IsSynced : (item : JsonObject) (s : DialogState) → IsReachable item s → IsSynced s
  unfolding IsSynced open_dialog update update_json update_validity
  reachable-IsSynced item _ opened = inl (refl, refl)
  reachable-IsSynced item _ (field_edited s next r) = inl (refl, refl)
  reachable-IsSynced item _ (text_edited s text r) =
      accept_text-IsSynced s text (parse_object parse stringify text) refl
  reachable-IsSynced item _ (field_transformed s path result r) =
      transform-IsSynced s path result (reachable-IsSynced item s r)
  reachable-IsSynced item _ (validity_told s path valid r) = reachable-IsSynced item s r

includes-keep :
    (test : String → Bool) (xs : List String) (s : String)
    → includes xs s ≡ false
    → includes (keep test xs) s ≡ false
includes-keep test [] s h = refl
includes-keep test (x ∷ xs) s h =
    let there : includes xs s ≡ false = ground arith in
    elim (Bool-cases (test x)) [
      | inl stays ↦ rw stays (ground (arith, includes-keep test xs s there))
      | inr goes ↦ rw goes (includes-keep test xs s there)
    ]

keep-HasNoRepeat :
    (test : String → Bool) (xs : List String) → HasNoRepeat xs → HasNoRepeat (keep test xs)
keep-HasNoRepeat test [] h = tt
keep-HasNoRepeat test (x ∷ xs) (h, hs) = elim (Bool-cases (test x)) [
  | inl stays ↦ rw stays (includes-keep test xs x h, keep-HasNoRepeat test xs hs)
  | inr goes ↦ rw goes (keep-HasNoRepeat test xs hs)
]

update_validity-HasNoRepeat :
    (s : DialogState) (path : String) (valid : Bool)
    → HasNoRepeat s.invalid_fields
    → HasNoRepeat (update_validity s path valid).invalid_fields
unfolding update_validity
update_validity-HasNoRepeat s path true h =
    keep-HasNoRepeat (λ p. not (p == path)) s.invalid_fields h
update_validity-HasNoRepeat s path false h = add_new-HasNoRepeat s.invalid_fields path h

transform-HasNoRepeat :
    (s : DialogState) (path : String) (result : TransformResult)
    → HasNoRepeat s.invalid_fields
    → HasNoRepeat (transform s path result).invalid_fields
unfolding transform
transform-HasNoRepeat s path TransformResult.undefined h = h
transform-HasNoRepeat s path TransformResult.rejected h = update_validity-HasNoRepeat s path false h
transform-HasNoRepeat s path (TransformResult.transformed next) h =
    update_validity-HasNoRepeat s path true h

accept_text-HasNoRepeat :
    (s : DialogState) (text : String) (result : Option JsonObject)
    → HasNoRepeat s.invalid_fields
    → HasNoRepeat (accept_text s text result).invalid_fields
unfolding accept_text
accept_text-HasNoRepeat s text none h = h
accept_text-HasNoRepeat s text (some o) h = tt

-- In every state that a dialog reaches, no field is marked as invalid twice.
pub reachable-HasNoRepeat :
    (parse : String → Option JsonValue) (stringify : JsonObject → String) (item : JsonObject)
    (s : DialogState)
    → IsReachable parse stringify item s
    → HasNoRepeat s.invalid_fields
unfolding open_dialog update update_json
reachable-HasNoRepeat parse stringify item _ opened = tt
reachable-HasNoRepeat parse stringify item _ (field_edited s next r) =
    reachable-HasNoRepeat parse stringify item s r
reachable-HasNoRepeat parse stringify item _ (text_edited s text r) =
    accept_text-HasNoRepeat s text (parse_object parse stringify text)
      (reachable-HasNoRepeat parse stringify item s r)
reachable-HasNoRepeat parse stringify item _ (field_transformed s path result r) =
    transform-HasNoRepeat s path result (reachable-HasNoRepeat parse stringify item s r)
reachable-HasNoRepeat parse stringify item _ (validity_told s path valid r) =
    update_validity-HasNoRepeat s path valid (reachable-HasNoRepeat parse stringify item s r)
