-- ===== src/Policy/Editor/Draft/Typed.antt =====
-- A draft keeps what the user types.
use boxui.Base.{ℕ, String, Bool, Option, none, some, ◌≡◌, refl, not, Bool-cases, inl, inr, eq_refl}
use boxui.Text.Trim.{trim, is_blank}
use boxui.Json.{JsonValue}
use boxui.Policy.Editor.Draft.{
  Draft, Typing, is_structured, source_key, render, type_parsed, type_text,
}

-- The value of the field after a call of onChange.
abbrev pub value_after : Option (Option JsonValue) → Option JsonValue → Option JsonValue
value_after none value = value
value_after (some changed) value = changed

module _ (parse : String → Option JsonValue) (stringify : JsonValue → String) where
  -- What a typing leaves: the text, and the validity that it reports.
  unfoldable pub IsTyped : ℕ → Option JsonValue → String → Typing → Type 0
  IsTyped revision value next typing =
      ((render parse stringify revision (value_after typing.change value) typing.draft).raw ≡ next)
      × (typing.reported ≡ not typing.draft.invalid)

  parsed-IsTyped :
      (revision : ℕ) (wants_array : Bool) (next : String) (d : Draft) (value v : Option JsonValue)
      → d.source ≡ source_key parse stringify revision value
      → IsTyped revision value next (type_parsed parse stringify revision wants_array next d v)
  unfolding IsTyped render
  parsed-IsTyped revision wants_array next d value none h =
      (rw (h, eq_refl (source_key parse stringify revision value)) refl, refl)
  parsed-IsTyped revision wants_array next d value (some v) h =
      elim (Bool-cases (is_structured wants_array v)) [
        | inl e ↦ rw (e, eq_refl (source_key parse stringify revision (some v))) (refl, refl)
        | inr e ↦ rw (e, h, eq_refl (source_key parse stringify revision value)) (refl, refl)
      ]

  -- Where the draft is that of the field's value, and the field is rendered again with the value that
  -- the typing handed on, the text stays what the user typed, and the validity that was reported is
  -- the one that the field shows.
  pub type_text-IsTyped :
      (revision : ℕ) (wants_array : Bool) (next : String) (d : Draft) (value : Option JsonValue)
      → d.source ≡ source_key parse stringify revision value
      → IsTyped revision value next (type_text parse stringify revision wants_array next d)
  unfolding IsTyped type_text render
  type_text-IsTyped revision wants_array next d value h = elim (Bool-cases (is_blank (trim next))) [
    | inl e ↦ rw (e, eq_refl (source_key parse stringify revision none)) (refl, refl)
    | inr e ↦ rw e (parsed-IsTyped revision wants_array next d value (parse next) h)
  ]
