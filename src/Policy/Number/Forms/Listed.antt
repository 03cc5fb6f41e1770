-- ===== src/Policy/Number/Forms/Listed.antt =====
-- A list that a field shows is read back from its text.
use Prim.Native.String
use text.Mathlib.TextLemmas.{nil-append, cons-append}
use boxui.Base.{
  String, Bool, true, false, Option, some, List, [], ◌∷◌, ◌≡◌, refl, arith, ◌&&◌, not, map, keep,
  ltb, length, not-and-parts,
}
use boxui.Text.Trim.{trim, split_class, join, is_blank}
use boxui.Json.{Number, string, items, from_items, JsonObject}
use boxui.Json.Print.{to_string}
use boxui.Policy.Kinds.{PolicyFieldKind, PolicyFieldSpec}
use boxui.Policy.FormModel.{set_policy_path}
use boxui.Policy.Number.{is_list_separator, list_tokens}
use boxui.Policy.Number.Forms.{
  parse_list, strings, text_value, update_kind, default_policy_field_update,
}

-- Without a comma or a newline.
unfoldable pub is_unseparated : String → Bool
is_unseparated String.[] = true
is_unseparated (String.◌∷◌ c s) = not (is_list_separator c) && is_unseparated s

-- What parseList keeps as it is.
unfoldable pub IsToken : String → Type 0
unfolding is_unseparated
IsToken s = (is_unseparated s ≡ true) × (trim s ≡ s) × (is_blank s ≡ false)

abbrev pub AllTokens : List String → Type 0
AllTokens [] = Unit
AllTokens (s ∷ ss) = IsToken s × AllTokens ss

split_class-one : (s : String) → is_unseparated s ≡ true → split_class is_list_separator s ≡ s ∷ []
unfolding split_class is_unseparated
split_class-one String.[] h = refl
split_class-one (String.◌∷◌ c s) h =
    let (here, rest) = not-and-parts (is_list_separator c) (is_unseparated s) h in
    rw (here, split_class-one s rest) refl

split_class-line :
    (s t : String)
    → is_unseparated s ≡ true
    → split_class is_list_separator (String.◌++◌ s (String.◌++◌ "\n" t))
      ≡ s ∷ split_class is_list_separator t
unfolding split_class is_unseparated
split_class-line String.[] t h =
    rw (nil-append (String.◌++◌ "\n" t), cons-append "\n" "" t, nil-append t) refl
split_class-line (String.◌∷◌ c s) t h =
    let (here, rest) = not-and-parts (is_list_separator c) (is_unseparated s) h in
    rw (cons-append c s (String.◌++◌ "\n" t), here, split_class-line s t rest) refl

split_class-join :
    (s : String) (ss : List String)
    → AllTokens (s ∷ ss)
    → split_class is_list_separator (join "\n" (s ∷ ss)) ≡ s ∷ ss
unfolding join IsToken
split_class-join s [] (h, hs) = split_class-one s h.0
split_class-join s (t ∷ ss) (h, hs) =
    rw (split_class-line s (join "\n" (t ∷ ss)) h.0, split_class-join t ss hs) refl

keep-tokens : (ss : List String) → AllTokens ss → keep (λ s. not (is_blank s)) (map trim ss) ≡ ss
unfolding IsToken
keep-tokens [] h = refl
keep-tokens (s ∷ ss) ((sep, trimmed, filled), hs) = rw (trimmed, filled, keep-tokens ss hs) refl

map-strings : (ss : List String) → map to_string (items (from_items (map string ss))) ≡ ss
unfolding to_string
map-strings [] = refl
map-strings (s ∷ ss) = rw (map-strings ss) refl

list_tokens-shown :
    (s : String) (ss : List String)
    → AllTokens (s ∷ ss)
    → list_tokens (text_value (some (strings (s ∷ ss)))) ≡ s ∷ ss
unfolding list_tokens text_value
list_tokens-shown s ss h =
    rw (map-strings (s ∷ ss), split_class-join s ss h) (keep-tokens (s ∷ ss) h)

-- The text that a list field shows for a list with an item or more, each trimmed, filled and without
-- a comma or a newline, sets the field's path to that very list.
pub default_policy_field_update-shown :
    (to_number : String → Option Number) (o : JsonObject) (f : PolicyFieldSpec) (s : String)
    (ss : List String)
    → f.kind ≡ some PolicyFieldKind.list
    → AllTokens (s ∷ ss)
    → default_policy_field_update to_number o f (text_value (some (strings (s ∷ ss))))
      ≡ some (set_policy_path o f.path (some (strings (s ∷ ss))))
unfolding default_policy_field_update update_kind parse_list
default_policy_field_update-shown to_number o f s ss kind h =
    let filled : ltb 0 (length (s ∷ ss)) ≡ true = ground arith in
    rw (kind, list_tokens-shown s ss h, filled) refl
