-- ===== src/Api/Sse/Stream/Chunking.antt =====
-- The events of a stream do not depend on how its text is cut into reads.
use Prim.Native.String
use mathlib.Core.List.{append_assoc as list_append_assoc}
use text.Mathlib.TextLemmas.{append_assoc, nil-append}
use boxui.Base.{
  String, false, Option, List, [], ◌∷◌, ◌++◌, ◌≡◌, refl, sym, ap, ◌∙◌, Bool-cases, inl, inr,
}
use boxui.Api.Sse.Blocks.{split_blocks, last_block, complete_blocks}
use boxui.Api.Sse.Blocks.Chunks.{split_blocks-append, glue_complete, split_blocks_complete}
use boxui.Api.Sse.Stream.{
  Consumed, parse_event, and_then, deliver_one, deliver, consume, consume_sse_stream,
}

-- The text of all reads.
unfoldable pub whole : List String → String → String
whole [] last = last
whole (chunk ∷ chunks) last = String.◌++◌ chunk (whole chunks last)

module _ {ℓ} {A : Type ℓ} (parse : String → Option A) where
  and_then_assoc : (a b c : Consumed A) → and_then (and_then a b) c ≡ and_then a (and_then b c)
  and_then_assoc a b c = elim (Bool-cases a.failed) [
    | inl e ↦ rw e refl
    | inr e ↦ elim (Bool-cases b.failed) [
      | inl e' ↦ rw (e, e') refl
      | inr e' ↦ rw (e, e', list_append_assoc a.events b.events c.events) refl
    ]
  ]

  and_then_start : (a : Consumed A) → and_then record { events = []; failed = false } a ≡ a
  and_then_start a = refl

  deliver-append :
      (xs ys : List String)
      → deliver parse (xs ++ ys) ≡ and_then (deliver parse xs) (deliver parse ys)
  unfolding deliver
  deliver-append [] ys = refl
  deliver-append (x ∷ xs) ys = rw (deliver-append xs ys) (
      sym
        (and_then_assoc (deliver_one (parse_event parse x)) (deliver parse xs) (deliver parse ys)))

  consume-whole :
      (buffer : String) (chunks : List String) (last : String)
      → consume parse buffer chunks last
        ≡ deliver parse (split_blocks (String.◌++◌ buffer (whole chunks last)))
  unfolding consume whole
  consume-whole buffer [] last =
      rw
        (sym (
          deliver-append (complete_blocks (split_blocks (String.◌++◌ buffer last)))
            (last_block (split_blocks (String.◌++◌ buffer last)) ∷ [])))
        (ap (deliver parse) (split_blocks_complete (String.◌++◌ buffer last)))
  consume-whole buffer (chunk ∷ chunks) last =
      let blocks = split_blocks (String.◌++◌ buffer chunk) in
      rw (consume-whole (last_block blocks) chunks last) (
        sym (
          deliver-append (complete_blocks blocks)
            (split_blocks (String.◌++◌ (last_block blocks) (whole chunks last))))
        ∙ ap (deliver parse) (
            sym (glue_complete blocks (whole chunks last))
            ∙ sym (split_blocks-append (String.◌++◌ buffer chunk) (whole chunks last))
            ∙ ap split_blocks (append_assoc buffer chunk (whole chunks last))))

  -- However the text of a stream is cut into reads, consumeSSEStream hands on the events of the
  -- blocks of the whole text in their order, up to the first block whose data JSON.parse refuses,
  -- and fails just when there is one.
  pub consume_sse_stream-whole :
      (chunks : List String) (last : String)
      → consume_sse_stream parse chunks last ≡ deliver parse (split_blocks (whole chunks last))
  unfolding consume_sse_stream
  consume_sse_stream-whole chunks last =
      consume-whole "" chunks last
      ∙ ap (λ s. deliver parse (split_blocks s)) (nil-append (whole chunks last))
