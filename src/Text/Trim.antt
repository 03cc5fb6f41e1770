-- ===== src/Text/Trim.antt =====
-- `trim`, `trimStart`, `startsWith`, `slice(from)`, `join` and `split` of JavaScript's strings.
use Prim.Native.Char.{Char, code}
use Prim.Native.String
use boxui.Base.{
  ℕ, zero, suc, String, Bool, true, false, List, [], ◌∷◌, ◌||◌, ◌&&◌, nat_eq, leb, if◌then◌else◌,
}

-- ECMAScript's white space and line terminators.
unfoldable pub is_white : ℕ → Bool
is_white n =
    leb 9 n && leb n 13
    || nat_eq n 32
    || nat_eq n 160
    || nat_eq n 5760
    || leb 8192 n && leb n 8202
    || nat_eq n 8232
    || nat_eq n 8233
    || nat_eq n 8239
    || nat_eq n 8287
    || nat_eq n 12288
    || nat_eq n 65279

unfoldable pub trim_start : String → String
trim_start String.[] = String.[]
trim_start (String.◌∷◌ c s) =
    let rest = trim_start s in if is_white (code c) then rest else String.◌∷◌ c s

-- The first character of what is left of a text, where white space alone leaves nothing.
abbrev pub prepend_kept : Char → String → String
prepend_kept c String.[] = if is_white (code c) then String.[] else String.◌∷◌ c String.[]
prepend_kept c (String.◌∷◌ d s) = String.◌∷◌ c (String.◌∷◌ d s)

unfoldable pub trim_end : String → String
trim_end String.[] = String.[]
trim_end (String.◌∷◌ c s) = prepend_kept c (trim_end s)

-- `raw.trim()`
unfoldable pub trim : String → String
unfolding trim_start trim_end
trim s = trim_end (trim_start s)

-- `text.startsWith(prefix)`
unfoldable pub starts_with : String → String → Bool
starts_with String.[] s = true
starts_with (String.◌∷◌ c p) String.[] = false
starts_with (String.◌∷◌ c p) (String.◌∷◌ d s) = nat_eq (code c) (code d) && starts_with p s

-- `text.slice(from)`
unfoldable pub slice : ℕ → String → String
slice zero s = s
slice (suc k) String.[] = String.[]
slice (suc k) (String.◌∷◌ c s) = slice k s

-- `texts.join(separator)`
unfoldable pub join : String → List String → String
join separator [] = ""
join separator (s ∷ []) = s
join separator (s ∷ t ∷ rest) = String.◌++◌ s (String.◌++◌ separator (join separator (t ∷ rest)))

-- The first part is one character longer.
abbrev pub prepend_first : Char → List String → List String
prepend_first c [] = String.◌∷◌ c String.[] ∷ []
prepend_first c (s ∷ parts) = String.◌∷◌ c s ∷ parts

-- `text.split(/[…]/)` at each character of a class
unfoldable pub split_class : (Char → Bool) → String → List String
split_class is_separator String.[] = String.[] ∷ []
split_class is_separator (String.◌∷◌ c s) =
    let rest = split_class is_separator s in
    if is_separator c then String.[] ∷ rest else prepend_first c rest

abbrev pub is_blank : String → Bool
is_blank String.[] = true
is_blank (String.◌∷◌ c s) = false
