-- ===== src/Api/Sse/Blocks/Chunks.antt =====
-- Splitting a text that arrives in parts: the complete blocks of a prefix stay as they are, and
-- only its last block goes on.
use Prim.Native.Char.{Char}
use Prim.Native.String
use text.Mathlib.TextLemmas.{append-nil, nil-append, cons-append}
use boxui.Base.{
  ℕ, zero, suc, ◌≤◌, String, Bool, List, [], ◌∷◌, ◌++◌, ◌≡◌, ◌≢◌, refl, sym, true, false,
  Bool-cases, arith, ◌⊎◌, inl, inr,
}
use boxui.Api.Sse.Blocks.{
  size, newline_width, line_after, blank_width, prepend, split_at, split_step, split_blocks,
  last_block, complete_blocks,
}

abbrev pub has_two : List String → Bool
has_two [] = false
has_two (b ∷ []) = false
has_two (b ∷ b' ∷ blocks) = true

-- A separator that is found is found whatever follows.
blank_width-append :
    (s t : String) → blank_width s ≢ 0 → blank_width (String.◌++◌ s t) ≡ blank_width s
unfolding blank_width newline_width line_after
blank_width-append String.[] t h = ground arith
blank_width-append (String.◌∷◌ a String.[]) t h = ground arith
blank_width-append (String.◌∷◌ a (String.◌∷◌ b String.[])) String.[] h = rw (append-nil _) refl
blank_width-append (String.◌∷◌ a (String.◌∷◌ b String.[])) (String.◌∷◌ e t) h =
    simp (cons-append, nil-append) (ground arith)
blank_width-append (String.◌∷◌ a (String.◌∷◌ b (String.◌∷◌ c String.[]))) String.[] h =
    simp (cons-append, nil-append) (ground arith)
blank_width-append (String.◌∷◌ a (String.◌∷◌ b (String.◌∷◌ c String.[]))) (String.◌∷◌ e t) h =
    simp (cons-append, nil-append) (ground arith)
blank_width-append (String.◌∷◌ a (String.◌∷◌ b (String.◌∷◌ c (String.◌∷◌ d s)))) t h =
    simp (cons-append, nil-append) (ground arith)

blank_width-size : (s : String) → blank_width s ≤ size s
unfolding blank_width newline_width line_after size
blank_width-size String.[] = ground arith
blank_width-size (String.◌∷◌ a String.[]) = ground arith
blank_width-size (String.◌∷◌ a (String.◌∷◌ b String.[])) = ground arith
blank_width-size (String.◌∷◌ a (String.◌∷◌ b (String.◌∷◌ c String.[]))) = ground arith
blank_width-size (String.◌∷◌ a (String.◌∷◌ b (String.◌∷◌ c (String.◌∷◌ d s)))) = ground arith

-- Nothing that follows makes a separator of a place before a separator.
blank_width-before :
    (c : Char) (s t : String)
    → blank_width (String.◌∷◌ c s) ≡ 0
    → 2 ≤ size s
    → (size s ≡ 2 → blank_width s ≢ 0)
    → blank_width (String.◌∷◌ c (String.◌++◌ s t)) ≡ 0
unfolding blank_width newline_width line_after size
blank_width-before c String.[] t h two last = ground arith
blank_width-before c (String.◌∷◌ a String.[]) t h two last = ground arith
blank_width-before c (String.◌∷◌ a (String.◌∷◌ b String.[])) String.[] h two last =
    rw (append-nil _) h
blank_width-before c (String.◌∷◌ a (String.◌∷◌ b String.[])) (String.◌∷◌ e t) h two last =
    simp (cons-append, nil-append) (ground arith)
blank_width-before c (String.◌∷◌ a (String.◌∷◌ b (String.◌∷◌ d s))) t h two last =
    simp (cons-append, nil-append) (ground arith)

-- The parts of a text `t` that follows the blocks: the last block goes on.
abbrev pub glue : List String → String → List String
glue [] t = split_blocks t
glue (b ∷ []) t = split_blocks (String.◌++◌ b t)
glue (b ∷ b' ∷ blocks) t = b ∷ glue (b' ∷ blocks) t

abbrev IsCons : List String → Type 0
IsCons [] = ⊥
IsCons (b ∷ blocks) = Unit

prepend-IsCons : (c : Char) (blocks : List String) → IsCons (prepend c blocks)
unfolding prepend
prepend-IsCons c [] = tt
prepend-IsCons c (b ∷ blocks) = tt

split_step-IsCons :
    (w : ℕ) (longer : List String) (after : ℕ → List String)
    → IsCons longer
    → IsCons (split_step w longer after)
split_step-IsCons zero longer after h = h
split_step-IsCons (suc w) longer after h = tt

split_at-IsCons : (skip : ℕ) (s : String) → IsCons (split_at blank_width skip s)
unfolding split_at
split_at-IsCons skip String.[] = tt
split_at-IsCons (suc skip) (String.◌∷◌ c s) = split_at-IsCons skip s
split_at-IsCons zero (String.◌∷◌ c s) =
    split_step-IsCons (blank_width (String.◌∷◌ c s)) (prepend c (split_at blank_width 0 s))
      (λ skip. split_at blank_width skip s) (prepend-IsCons c (split_at blank_width 0 s))

has_two-prepend : (c : Char) (blocks : List String) → has_two (prepend c blocks) ≡ has_two blocks
unfolding prepend
has_two-prepend c [] = refl
has_two-prepend c (b ∷ []) = refl
has_two-prepend c (b ∷ b' ∷ blocks) = refl

has_two-IsCons : (b : String) (blocks : List String) → IsCons blocks → has_two (b ∷ blocks) ≡ true
has_two-IsCons b [] h = elim h [ ]
has_two-IsCons b (b' ∷ blocks) h = refl

glue-IsCons :
    (b : String) (blocks : List String) (t : String)
    → IsCons blocks
    → glue (b ∷ blocks) t ≡ b ∷ glue blocks t
glue-IsCons b [] t h = elim h [ ]
glue-IsCons b (b' ∷ blocks) t h = refl

glue-prepend :
    (c : Char) (blocks : List String) (t : String)
    → has_two blocks ≡ true
    → glue (prepend c blocks) t ≡ prepend c (glue blocks t)
unfolding prepend
glue-prepend c [] t h = ground arith
glue-prepend c (b ∷ []) t h = ground arith
glue-prepend c (b ∷ b' ∷ blocks) t h = refl

-- A place where no separator starts.
split_at-go_on :
    (c : Char) (s : String)
    → blank_width (String.◌∷◌ c s) ≡ 0
    → split_at blank_width 0 (String.◌∷◌ c s) ≡ prepend c (split_at blank_width 0 s)
unfolding split_at
split_at-go_on c s h = rw h refl

split_at-cut :
    (k : ℕ) (c : Char) (s : String)
    → blank_width (String.◌∷◌ c s) ≡ suc k
    → split_at blank_width 0 (String.◌∷◌ c s) ≡ String.[] ∷ split_at blank_width k s
unfolding split_at
split_at-cut k c s h = rw h refl

split_step-positive :
    (w : ℕ) (longer : List String) (after : ℕ → List String)
    → has_two longer ≡ false
    → has_two (split_step w longer after) ≡ true
    → w ≢ 0
split_step-positive zero longer after one two = ground arith
split_step-positive (suc k) longer after one two = ground arith

-- The text `s` has a separator only if it has two characters at least.
has_two-size : (s : String) → has_two (split_blocks s) ≡ true → 2 ≤ size s
unfolding split_blocks split_at prepend size blank_width
has_two-size String.[] two = ground arith
has_two-size (String.◌∷◌ a String.[]) two = ground arith
has_two-size (String.◌∷◌ a (String.◌∷◌ b s)) two = omega arith

has_two-last : (s : String) → has_two (split_blocks s) ≡ true → size s ≡ 2 → blank_width s ≢ 0
unfolding split_blocks split_at prepend size blank_width
has_two-last String.[] two h = ground arith
has_two-last (String.◌∷◌ a String.[]) two h = omega (arith, h)
has_two-last (String.◌∷◌ a (String.◌∷◌ b String.[])) two h =
    split_step-positive (blank_width (String.◌∷◌ a (String.◌∷◌ b String.[])))
      (prepend a (split_at blank_width 0 (String.◌∷◌ b String.[])))
      (λ skip. split_at blank_width skip (String.◌∷◌ b String.[])) refl two
has_two-last (String.◌∷◌ a (String.◌∷◌ b (String.◌∷◌ d s))) two h = omega (arith, h)

has_two-width :
    (c : Char) (s t : String)
    → blank_width (String.◌∷◌ c s) ≡ 0
    → has_two (split_blocks s) ≡ true
    → blank_width (String.◌∷◌ c (String.◌++◌ s t)) ≡ 0
has_two-width c s t h two = blank_width-before c s t h (has_two-size s two) (has_two-last s two)

split_step-one :
    (w : ℕ) (c : Char) (s : String) (after : ℕ → List String)
    → ((k : ℕ) → IsCons (after k))
    → (has_two (split_blocks s) ≡ false → split_blocks s ≡ s ∷ [])
    → has_two (split_step w (prepend c (split_blocks s)) after) ≡ false
    → split_step w (prepend c (split_blocks s)) after ≡ String.◌∷◌ c s ∷ []
unfolding prepend
split_step-one zero c s after cons ih h =
    rw (ih (rw (sym (has_two-prepend c (split_blocks s))) h)) refl
split_step-one (suc k) c s after cons ih h =
    let two = has_two-IsCons String.[] (after k) (cons k) in ground arith

-- A text without a separator is one block.
split_blocks-one : (s : String) → has_two (split_blocks s) ≡ false → split_blocks s ≡ s ∷ []
unfolding split_blocks split_at
split_blocks-one String.[] h = refl
split_blocks-one (String.◌∷◌ c s) h =
    split_step-one (blank_width (String.◌∷◌ c s)) c s (λ skip. split_at blank_width skip s)
      (λ skip. split_at-IsCons skip s) (split_blocks-one s) h

module _ (c : Char) (s t : String) where
  blank_width-cut :
      (k : ℕ)
      → blank_width (String.◌∷◌ c s) ≡ suc k
      → blank_width (String.◌∷◌ c (String.◌++◌ s t)) ≡ suc k
  blank_width-cut k found =
      rw
        (
          sym (cons-append c s t),
          blank_width-append (String.◌∷◌ c s) t (λ e. ground (arith, e, found)),
        )
        found

  glue-cut :
      (k : ℕ)
      → blank_width (String.◌∷◌ c s) ≡ suc k
      → split_at blank_width k (String.◌++◌ s t) ≡ glue (split_at blank_width k s) t
      → split_blocks (String.◌∷◌ c (String.◌++◌ s t)) ≡ glue (split_blocks (String.◌∷◌ c s)) t
  unfolding split_blocks split_at
  glue-cut k found later =
      rw (found, blank_width-cut k found, later)
        (sym (glue-IsCons String.[] (split_at blank_width k s) t (split_at-IsCons k s)))

  glue-go_on :
      blank_width (String.◌∷◌ c s) ≡ 0
      → split_blocks (String.◌++◌ s t) ≡ glue (split_blocks s) t
      → has_two (split_blocks s) ≡ true
      → split_blocks (String.◌∷◌ c (String.◌++◌ s t)) ≡ glue (split_blocks (String.◌∷◌ c s)) t
  unfolding split_blocks split_at
  glue-go_on none now two =
      rw (none, has_two-width c s t none two, now) (sym (glue-prepend c (split_blocks s) t two))

  glue-one :
      blank_width (String.◌∷◌ c s) ≡ 0
      → has_two (split_blocks s) ≡ false
      → split_blocks (String.◌∷◌ c (String.◌++◌ s t)) ≡ glue (split_blocks (String.◌∷◌ c s)) t
  unfolding split_blocks split_at prepend
  glue-one none one = rw (none, split_blocks-one s one, cons-append c s t) refl

Nat-cases : (n : ℕ) → (n ≡ 0) ⊎ ((k : ℕ) × (n ≡ suc k))
Nat-cases zero = inl refl
Nat-cases (suc k) = inr (k, refl)

-- Splitting a text is splitting a prefix of it and going on with its last block.
split_at-append :
    (k : ℕ) (s t : String)
    → k ≤ size s
    → split_at blank_width k (String.◌++◌ s t) ≡ glue (split_at blank_width k s) t
unfolding split_at split_blocks size
split_at-append zero String.[] t h = rw (nil-append t) refl
split_at-append (suc k) String.[] t h = ground arith
split_at-append (suc k) (String.◌∷◌ c s) t h =
    rw (cons-append c s t) (split_at-append k s t (omega (arith, h)))
split_at-append zero (String.◌∷◌ c s) t h =
    let now = split_at-append 0 s t (omega arith) in
    rw (cons-append c s t) (elim (Nat-cases (blank_width (String.◌∷◌ c s))) [
      | inl none ↦ elim (Bool-cases (has_two (split_blocks s))) [
        | inl two ↦ glue-go_on c s t none now two
        | inr one ↦ glue-one c s t none one
      ]
      | inr (k, found) ↦
          glue-cut c s t k found
            (split_at-append k s t (omega (arith, found, blank_width-size (String.◌∷◌ c s))))
    ])

-- The blocks before the last and what goes on after it.
pub split_blocks-append : (s t : String) → split_blocks (String.◌++◌ s t) ≡ glue (split_blocks s) t
unfolding split_blocks
split_blocks-append s t = split_at-append 0 s t (omega arith)

pub glue_complete :
    (blocks : List String) (t : String)
    → glue blocks t ≡ complete_blocks blocks ++ split_blocks (String.◌++◌ (last_block blocks) t)
unfolding complete_blocks last_block
glue_complete [] t = rw (nil-append t) refl
glue_complete (b ∷ []) t = refl
glue_complete (b ∷ b' ∷ blocks) t = rw (glue_complete (b' ∷ blocks) t) refl

complete_blocks-last :
    (blocks : List String)
    → IsCons blocks
    → complete_blocks blocks ++ last_block blocks ∷ [] ≡ blocks
unfolding complete_blocks last_block
complete_blocks-last [] h = elim h [ ]
complete_blocks-last (b ∷ []) h = refl
complete_blocks-last (b ∷ b' ∷ blocks) h = rw (complete_blocks-last (b' ∷ blocks) tt) refl

pub split_blocks_complete :
    (s : String)
    → complete_blocks (split_blocks s) ++ last_block (split_blocks s) ∷ [] ≡ split_blocks s
unfolding split_blocks
split_blocks_complete s = complete_blocks-last (split_blocks s) (split_at-IsCons 0 s)
