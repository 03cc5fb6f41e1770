-- ===== src/Api/Sse/Retry.antt =====
-- ui/src/lib/api/sse.ts: openSSE, which opens an event stream again when it ends or fails.
-- Its closures are functions on a record of the variables they share. The browser decides when a
-- fetch answers, a stream ends, one of them rejects or a timer fires: `Step` has a constructor for
-- each, and one for `stop`, which the caller and the abort signal run at any time.
pub mod Reach
use Prim.Native.Nat.{◌^◌}
use boxui.Base.{
  ℕ, suc, ◌+◌, ◌*◌, String, Bool, true, false, List, [], ◌∷◌, ◌&&◌, ◌||◌, ◌≡◌, ◌⊎◌, not, leb,
  nat_eq, if◌then◌else◌,
}

-- What the running `connect` waits for.
pub data Task : Type 0 where
  idle : Task
  fetching : Task
  reading : Task
  waiting : ℕ → Task

pub record Connection : Type 0 where
  pub attempt : ℕ
  pub stopped : Bool
  pub aborted : Bool
  pub task : Task
  -- the fetches so far, the calls of notifyUnauthorized and those of onError
  pub connects : ℕ
  pub unauthorized : ℕ
  pub errors : ℕ

-- `Math.min(1000 * (2 ** attempt), 10000)`
unfoldable pub retry_delay : ℕ → ℕ
retry_delay attempt = let delay = 1000 * 2 ^ attempt in if leb delay 10000 then delay else 10000

unfoldable pub retry : Connection → Connection
unfolding retry_delay
retry c =
    if c.stopped
    then record c { task = idle }
    else record c { attempt = suc c.attempt; task = waiting (retry_delay c.attempt) }

-- `connect` up to its fetch.
unfoldable pub connect : Connection → Connection
connect c = record c { aborted = false; task = fetching; connects = suc c.connects }

unfoldable pub catch_error : Connection → Connection
unfolding retry
catch_error c =
    if c.stopped || c.aborted
    then record c { task = idle }
    else retry (record c { errors = suc c.errors })

-- `connect` from the answer of its fetch to the reading of the body. `ok` is a status of 200 to 299.
unfoldable pub respond : ℕ → Bool → Connection → Connection
unfolding catch_error
respond status has_body c =
    if nat_eq status 401
    then record c {
      stopped = true;
      unauthorized = suc c.unauthorized;
      errors = suc c.errors;
      task = idle;
    }
    else if leb 200 status && leb status 299 && has_body
    then record c { attempt = 0; task = reading }
    else catch_error c

-- `clearTimeout(timer)`
abbrev pub clear_timer : Task → Task
clear_timer idle = idle
clear_timer fetching = fetching
clear_timer reading = reading
clear_timer (waiting delay) = idle

unfoldable pub stop : Connection → Connection
stop c = record c { stopped = true; aborted = true; task = clear_timer c.task }

unfoldable pub open_sse : Connection
unfolding connect
open_sse = connect record {
  attempt = 0;
  stopped = false;
  aborted = false;
  task = idle;
  connects = 0;
  unauthorized = 0;
  errors = 0;
}

pub data Step : Connection → Connection → Type 0 where
  responded :
      (c : Connection) (status : ℕ) (has_body : Bool)
      → c.task ≡ fetching
      → Step c (respond status has_body c)
  ended : (c : Connection) → c.task ≡ reading → Step c (retry c)
  rejected : (c : Connection) → (c.task ≡ fetching) ⊎ (c.task ≡ reading) → Step c (catch_error c)
  fired : (c : Connection) (delay : ℕ) → c.task ≡ waiting delay → Step c (connect c)
  stop_called : (c : Connection) → Step c (stop c)

pub data IsReachable : Connection → Type 0 where
  opened : IsReachable open_sse
  stepped : {c d : Connection} → IsReachable c → Step c d → IsReachable d
