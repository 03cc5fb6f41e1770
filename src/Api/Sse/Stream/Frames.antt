-- ===== src/Api/Sse/Stream/Frames.antt =====
-- Events written as server-sent events, `data: <json>` and an empty line each, are read back.
use Prim.Native.Char.{Char, code}
use Prim.Native.String
use text.Mathlib.TextLemmas.{nil-append, cons-append, append_assoc}
use boxui.Base.{
  String, Bool, true, false, Option, some, List, [], ◌∷◌, ◌≡◌, refl, sym, arith, ◌&&◌, ◌||◌, not,
  map, not-and-parts,
}
use boxui.Text.Trim.{is_white, trim_start, starts_with, slice, join, is_blank}
use boxui.Api.Sse.Blocks.{
  is_lf, is_cr, newline_width, line_after, blank_width, prepend, split_at, split_blocks,
  split_lines,
}
use boxui.Api.Sse.Stream.{parse_event, event_data, event, deliver, consume_sse_stream}
use boxui.Api.Sse.Stream.Chunking.{whole, consume_sse_stream-whole}

-- A text on one line.
unfoldable pub one_line : String → Bool
one_line String.[] = true
one_line (String.◌∷◌ c s) = not (is_lf c || is_cr c) && one_line s

-- A text on one line that begins with a character other than white space.
unfoldable pub is_payload : String → Bool
unfolding one_line
is_payload String.[] = false
is_payload (String.◌∷◌ c s) = not (is_white (code c)) && one_line (String.◌∷◌ c s)

-- The blocks of the server's events.
unfoldable pub frames : List String → String
frames [] = ""
frames (p ∷ payloads) = String.◌++◌ "data: " (String.◌++◌ p (String.◌++◌ "\n\n" (frames payloads)))

two_newlines : (t : String) → String.◌++◌ "\n\n" t ≡ String.◌∷◌ "\n" (String.◌∷◌ "\n" t)
two_newlines t = rw (cons-append "\n" "\n" t, cons-append "\n" "" t, nil-append t) refl

data_append :
    (p : String)
    → String.◌++◌ "data: " p
      ≡ String.◌∷◌ "d"
          (String.◌∷◌ "a" (String.◌∷◌ "t" (String.◌∷◌ "a" (String.◌∷◌ ":" (String.◌∷◌ " " p)))))
data_append p =
    rw
      (
        cons-append "d" "ata: " p,
        cons-append "a" "ta: " p,
        cons-append "t" "a: " p,
        cons-append "a" ": " p,
        cons-append ":" " " p,
        cons-append " " "" p,
        nil-append p,
      )
      refl

one_line-rest : (c : Char) (s : String) → one_line (String.◌∷◌ c s) ≡ true → one_line s ≡ true
unfolding one_line
one_line-rest c s h = ground arith

newline_width-line :
    (c : Char) (s : String) → one_line (String.◌∷◌ c s) ≡ true → newline_width (String.◌∷◌ c s) ≡ 0
unfolding one_line newline_width
newline_width-line c String.[] h = ground arith
newline_width-line c (String.◌∷◌ d s) h = ground arith

newline_width-lf : (s : String) → newline_width (String.◌∷◌ "\n" s) ≡ 1
unfolding newline_width
newline_width-lf String.[] = refl
newline_width-lf (String.◌∷◌ d s) = refl

blank_width-line :
    (c : Char) (s t : String)
    → one_line (String.◌∷◌ c s) ≡ true
    → blank_width (String.◌∷◌ c (String.◌++◌ s (String.◌++◌ "\n\n" t))) ≡ 0
unfolding blank_width newline_width line_after one_line
blank_width-line c String.[] t h =
    rw (two_newlines t) (simp (nil-append, cons-append) (ground arith))
blank_width-line c (String.◌∷◌ d s) t h =
    rw (two_newlines t) (simp (nil-append, cons-append) (ground arith))

split_blocks-line :
    (s t : String)
    → one_line s ≡ true
    → split_blocks (String.◌++◌ s (String.◌++◌ "\n\n" t)) ≡ s ∷ split_blocks t
unfolding split_blocks split_at prepend one_line blank_width newline_width line_after
split_blocks-line String.[] t h =
    rw (nil-append (String.◌++◌ "\n\n" t), two_newlines t, newline_width-lf t) refl
split_blocks-line (String.◌∷◌ c s) t h =
    rw
      (
        cons-append c s (String.◌++◌ "\n\n" t),
        blank_width-line c s t h,
        split_blocks-line s t (one_line-rest c s h),
      )
      refl

split_lines-line : (s : String) → one_line s ≡ true → split_lines s ≡ s ∷ []
unfolding split_lines split_at prepend one_line newline_width
split_lines-line String.[] h = refl
split_lines-line (String.◌∷◌ c s) h =
    rw (newline_width-line c s h, split_lines-line s (one_line-rest c s h)) refl

one_line-data : (p : String) → one_line p ≡ true → one_line (String.◌++◌ "data: " p) ≡ true
unfolding one_line
one_line-data p h = rw (data_append p) h

white_space : is_white 32 ≡ true
unfolding is_white
white_space = refl

payload-one_line : (p : String) → is_payload p ≡ true → one_line p ≡ true
unfolding is_payload
payload-one_line String.[] h = ground arith
payload-one_line (String.◌∷◌ c p) h =
    (not-and-parts (is_white (code c)) (one_line (String.◌∷◌ c p)) h).1

trim_start-payload : (p : String) → is_payload p ≡ true → trim_start (String.◌∷◌ " " p) ≡ p
unfolding is_payload trim_start
trim_start-payload String.[] h = ground arith
trim_start-payload (String.◌∷◌ c p) h =
    rw (white_space, (not-and-parts (is_white (code c)) (one_line (String.◌∷◌ c p)) h).0) refl

event_data-line : (p : String) → is_payload p ≡ true → event_data (String.◌++◌ "data: " p) ≡ p
unfolding event_data starts_with slice join
event_data-line p h =
    rw
      (
        split_lines-line (String.◌++◌ "data: " p) (one_line-data p (payload-one_line p h)),
        data_append p,
      )
      (trim_start-payload p h)

is_payload-not_blank : (p : String) → is_payload p ≡ true → is_blank p ≡ false
unfolding is_payload
is_payload-not_blank String.[] h = ground arith
is_payload-not_blank (String.◌∷◌ c p) h = refl

module _ {ℓ} {A : Type ℓ} (parse : String → Option A) (print : A → String)
    (parse-print : (v : A) → parse (print v) ≡ some v)
    (print-payload : (v : A) → is_payload (print v) ≡ true) where
  parse_event-frame : (v : A) → parse_event parse (String.◌++◌ "data: " (print v)) ≡ event v
  unfolding parse_event
  parse_event-frame v =
      rw
        (
          event_data-line (print v) (print-payload v),
          is_payload-not_blank (print v) (print-payload v),
          parse-print v,
        )
        refl

  deliver-nil : deliver parse (split_blocks "") ≡ record { events = []; failed = false }
  unfolding deliver split_blocks join starts_with
  deliver-nil = refl

  deliver-frames :
      (vs : List A)
      → deliver parse (split_blocks (frames (map print vs)))
        ≡ record { events = vs; failed = false }
  unfolding deliver frames
  deliver-frames [] = deliver-nil
  deliver-frames (v ∷ vs) =
      rw
        (
          sym (append_assoc "data: " (print v) (String.◌++◌ "\n\n" (frames (map print vs)))),
          split_blocks-line (String.◌++◌ "data: " (print v)) (frames (map print vs))
              (one_line-data (print v) (payload-one_line (print v) (print-payload v))),
          parse_event-frame v,
          deliver-frames vs,
        )
        refl

  -- Where JSON.parse reads back what the server prints, and that is one line that begins with a
  -- character other than white space, consumeSSEStream hands on exactly the values that the server
  -- sends as `data: <value>` with an empty line each, in their order and without a failure, however
  -- the stream is cut into reads.
  pub consume_sse_stream-frames :
      (vs : List A) (chunks : List String) (last : String)
      → whole chunks last ≡ frames (map print vs)
      → consume_sse_stream parse chunks last ≡ record { events = vs; failed = false }
  consume_sse_stream-frames vs chunks last h =
      rw (consume_sse_stream-whole parse chunks last, h) (deliver-frames vs)
