-- ===== src/Api/Sse/Blocks.antt =====
-- `buffer.split(/\r?\n\r?\n/)` and `block.split(/\r?\n/)`.
pub mod Chunks
use Prim.Native.Char.{Char, code}
use Prim.Native.String
use boxui.Base.{
  ℕ, zero, suc, ◌+◌, String, Bool, List, [], ◌∷◌, nat_eq, ◌&&◌, if◌then◌else◌, true, false,
}

unfoldable pub size : String → ℕ
size String.[] = 0
size (String.◌∷◌ c s) = suc (size s)

abbrev pub is_lf : Char → Bool
is_lf c = nat_eq (code c) 10

abbrev pub is_cr : Char → Bool
is_cr c = nat_eq (code c) 13

-- The length of a match of /\r?\n/ at the start, 0 where there is none.
unfoldable pub newline_width : String → ℕ
newline_width String.[] = 0
newline_width (String.◌∷◌ c String.[]) = if is_lf c then 1 else 0
newline_width (String.◌∷◌ c (String.◌∷◌ d s)) =
    if is_lf c then 1 else if is_cr c && is_lf d then 2 else 0

-- The end of the line that begins `s`, after `width` characters of a separator.
unfoldable pub line_after : ℕ → String → ℕ
unfolding newline_width
line_after width s = let second = newline_width s in if nat_eq second 0 then 0 else width + second

-- The length of a match of /\r?\n\r?\n/ at the start, 0 where there is none.
unfoldable pub blank_width : String → ℕ
unfolding line_after
blank_width String.[] = 0
blank_width (String.◌∷◌ c String.[]) = 0
blank_width (String.◌∷◌ c (String.◌∷◌ d s)) =
    if is_lf c
    then line_after 1 (String.◌∷◌ d s)
    else if is_cr c && is_lf d
    then line_after 2 s
    else 0

-- The first block is one character longer.
unfoldable pub prepend : Char → List String → List String
prepend c [] = String.◌∷◌ c String.[] ∷ []
prepend c (b ∷ blocks) = String.◌∷◌ c b ∷ blocks

-- A match of this width starts a new block after it; without one the block goes on.
abbrev pub split_step : ℕ → List String → (ℕ → List String) → List String
split_step zero longer after = longer
split_step (suc skip) longer after = String.[] ∷ after skip

-- The characters from here on, where `skip` of them belong to a separator.
unfoldable pub split_at : (String → ℕ) → ℕ → String → List String
unfolding prepend
split_at width skip String.[] = String.[] ∷ []
split_at width (suc skip) (String.◌∷◌ c s) = split_at width skip s
split_at width zero (String.◌∷◌ c s) =
    split_step (width (String.◌∷◌ c s)) (prepend c (split_at width 0 s))
      (λ skip. split_at width skip s)

-- `text.split(/\r?\n\r?\n/)`
unfoldable pub split_blocks : String → List String
unfolding blank_width split_at
split_blocks s = split_at blank_width 0 s

-- `block.split(/\r?\n/)`
unfoldable pub split_lines : String → List String
unfolding newline_width split_at
split_lines s = split_at newline_width 0 s

-- `blocks.pop() ?? ""`, and what is left
unfoldable pub last_block : List String → String
last_block [] = ""
last_block (b ∷ []) = b
last_block (b ∷ b' ∷ blocks) = last_block (b' ∷ blocks)

unfoldable pub complete_blocks : List String → List String
complete_blocks [] = []
complete_blocks (b ∷ []) = []
complete_blocks (b ∷ b' ∷ blocks) = b ∷ complete_blocks (b' ∷ blocks)
