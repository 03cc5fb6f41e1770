-- ===== src/Tests/Streams.antt =====
-- A stream that is cut inside a separator, a connection that fails, and the items that a page keeps.
use Prim.Native.Nat.{◌^◌, min}
use boxui.Base.{
  ℕ, ◌*◌, ◌≤◌, ◌≢◌, String, Bool, true, false, Option, none, some, List, [], ◌∷◌, ◌==◌, ◌≡◌, inl,
  refl, map, arith, length, if◌then◌else◌,
}
use boxui.Text.Trim.{join, starts_with, trim_start, slice, is_white}
use boxui.Api.Sse.Blocks.{split_blocks, complete_blocks, last_block}
use boxui.Api.Sse.Stream.{deliver, consume_sse_stream}
use boxui.Api.Sse.Stream.Chunking.{whole, consume_sse_stream-whole}
use boxui.Api.Sse.Stream.Frames.{is_payload, frames, consume_sse_stream-frames}
use boxui.Api.Sse.Retry.{
  respond, waiting, fetching, Connection, retry_delay, connect, catch_error, retry, stop, open_sse,
  rejected, stop_called, IsReachable, opened, stepped,
}
use boxui.Api.Sse.Retry.Reach.{
  IsAlive, reachable-IsAlive, Step-stopped, reachable-delay, failing, failing-delay,
}
use boxui.Api.Streams.{push_all, slice_last}
use boxui.Api.Streams.Buffer.{push_all-last}

-- JSON's two Booleans, as `1` and `0`.
abbrev parse : String → Option Bool
parse text = if text == "1" then some true else if text == "0" then some false else none

abbrev print : Bool → String
print true = "1"
print false = "0"

parse-print : (b : Bool) → parse (print b) ≡ some b
parse-print true = refl
parse-print false = refl

print-payload : (b : Bool) → is_payload (print b) ≡ true
unfolding is_payload is_white
print-payload true = refl
print-payload false = refl

abbrev sent : List Bool
sent = true ∷ false ∷ []

abbrev reads : List String
reads = "data: 1\n" ∷ "\nda" ∷ "ta: 0\n\n" ∷ []

sent-whole : whole reads "" ≡ frames (map print sent)
unfolding whole frames
sent-whole = refl

stream_whole_example :
    consume_sse_stream parse reads "" ≡ deliver parse (split_blocks (whole reads ""))
stream_whole_example = consume_sse_stream-whole parse reads ""

stream_frames_example : consume_sse_stream parse reads "" ≡ record { events = sent; failed = false }
stream_frames_example =
    consume_sse_stream-frames parse print parse-print print-payload sent reads "" sent-whole

-- What a carriage return before a line feed does, and an event that is refused.
stream_broken :
    consume_sse_stream parse ("data: 1\r\n\r" ∷ "\ndata: 2\n\ndata: 1\n\n" ∷ []) ""
    ≡ record { events = true ∷ []; failed = true }
unfolding consume_sse_stream split_blocks join starts_with complete_blocks last_block trim_start
    slice is_white
stream_broken = refl

-- The first fetch rejects, and then the caller stops.
abbrev failed_once : Connection
failed_once = catch_error open_sse

open_fetching : open_sse.task ≡ fetching
unfolding open_sse connect
open_fetching = refl

failed_once-IsReachable : IsReachable failed_once
failed_once-IsReachable = stepped opened (rejected open_sse (inl open_fetching))

failed_once_waits : failed_once.task ≡ waiting 1000
unfolding open_sse connect catch_error retry retry_delay
failed_once_waits = refl

failed_once-IsAlive_example : IsAlive failed_once
failed_once-IsAlive_example = reachable-IsAlive failed_once-IsReachable

delay_example : (1000 ≤ 1000) × (1000 ≤ 10000)
delay_example = reachable-delay 1000 failed_once-IsReachable failed_once_waits

abbrev stopped_once : Connection
stopped_once = stop failed_once

stopped_once-IsReachable : IsReachable stopped_once
stopped_once-IsReachable = stepped failed_once-IsReachable (stop_called failed_once)

stopped_once_stopped : stopped_once.stopped ≡ true
unfolding stop
stopped_once_stopped = refl

stopped_example :
    ((stop stopped_once).stopped ≡ true) × ((stop stopped_once).connects ≡ stopped_once.connects)
stopped_example =
    Step-stopped stopped_once-IsReachable (stop_called stopped_once) stopped_once_stopped

-- The second fetch, after a failure.
abbrev tried_again : Connection
tried_again = connect failed_once

tried_going_on : tried_again.stopped ≡ false
unfolding open_sse connect catch_error retry
tried_going_on = refl

tried_not_aborted : tried_again.aborted ≡ false
unfolding connect
tried_not_aborted = refl

failing_example :
    (failing 5 (respond 200 true tried_again)).task ≡ waiting (min (1000 * 2 ^ 5) 10000)
failing_example =
    failing-delay 5 tried_again 200 tried_going_on tried_not_aborted (omega arith) (omega arith)

abbrev limit : ℕ
limit = 2

abbrev came : List ℕ
came = 1 ∷ 2 ∷ 3 ∷ []

limit_nonzero : limit ≢ 0
limit_nonzero = omega arith

buffer_example :
    (push_all limit [] came ≡ slice_last limit came) × (length (push_all limit [] came) ≤ limit)
buffer_example = push_all-last limit came limit_nonzero
