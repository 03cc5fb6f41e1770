-- ===== src/Api/Sse/Stream.antt =====
-- ui/src/lib/api/sse.ts: eventData, parseEvent and consumeSSEStream.
-- The stream is the list of the texts that `decoder.decode` returns, the last of them for the read
-- that is done. `JSON.parse` is the parameter `parse`. A throw of parseEvent ends the stream.
pub mod Chunking
pub mod Frames
use Prim.Native.Char.{Char}
use Prim.Native.String
use boxui.Base.{
  ℕ, String, Bool, true, false, Option, none, some, List, [], ◌∷◌, ◌++◌, map, keep, if◌then◌else◌,
}
use boxui.Text.Trim.{trim_start, starts_with, slice, join, is_blank}
use boxui.Api.Sse.Blocks.{split_blocks, split_lines, last_block, complete_blocks}

unfoldable pub event_data : String → String
unfolding split_lines
event_data block =
    join "\n"
      (map (λ line. trim_start (slice 5 line)) (keep (starts_with "data:") (split_lines block)))

-- What parseEvent returns: undefined, an event, or a throw.
pub data Parsed {ℓ} (A : Type ℓ) : Type ℓ where
  nothing : Parsed A
  event : A → Parsed A
  invalid : Parsed A

-- The events handed to onEvent, and whether an invalid one ended the stream.
pub record Consumed {ℓ} (A : Type ℓ) : Type ℓ where
  pub events : List A
  pub failed : Bool

module _ {ℓ} {A : Type ℓ} where
  -- One statement after another, the second unless the first threw.
  abbrev pub and_then : Consumed A → Consumed A → Consumed A
  and_then first second =
      if first.failed
      then first
      else record { events = first.events ++ second.events; failed = second.failed }

  abbrev pub deliver_one : Parsed A → Consumed A
  deliver_one nothing = record { events = []; failed = false }
  deliver_one (event value) = record { events = value ∷ []; failed = false }
  deliver_one invalid = record { events = []; failed = true }

module _ {ℓ} {A : Type ℓ} (parse : String → Option A) where
  abbrev pub parsed : Option A → Parsed A
  parsed none = invalid
  parsed (some value) = event value

  unfoldable pub parse_event : String → Parsed A
  unfolding event_data parsed
  parse_event block =
      let text = event_data block in if is_blank text then nothing else parsed (parse text)

  -- `blocks.forEach((block) => …)`
  unfoldable pub deliver : List String → Consumed A
  unfolding parse_event and_then deliver_one
  deliver [] = record { events = []; failed = false }
  deliver (block ∷ blocks) = and_then (deliver_one (parse_event block)) (deliver blocks)

  -- The loop, on the texts before the last and the last one.
  unfoldable pub consume : String → List String → String → Consumed A
  unfolding deliver
  consume buffer [] last =
      let blocks = split_blocks (String.◌++◌ buffer last) in
      and_then (deliver (complete_blocks blocks)) (deliver (last_block blocks ∷ []))
  consume buffer (chunk ∷ chunks) last =
      let blocks = split_blocks (String.◌++◌ buffer chunk) in
      and_then (deliver (complete_blocks blocks)) (consume (last_block blocks) chunks last)

  unfoldable pub consume_sse_stream : List String → String → Consumed A
  unfolding consume
  consume_sse_stream chunks last = consume "" chunks last
