-- ===== src/Api/Sse/Retry/Reach.antt =====
-- What holds in every state of a stream's connection.
use Prim.Native.Nat.{◌^◌, min}
use native.Mathlib.Nat.{one-le-pow}
use boxui.Base.{
  ℕ, zero, suc, ◌*◌, ◌≤◌, Bool, true, false, ◌≡◌, inl, inr, refl, subst, ap, ◌∙◌, arith, leb,
  nat_eq, ◌&&◌, ◌||◌, Bool-cases,
}
use boxui.Api.Sse.Retry.{
  Task, idle, fetching, reading, waiting, Connection, retry_delay, retry, connect, catch_error,
  respond, clear_timer, stop, open_sse, Step, responded, ended, rejected, fired, stop_called,
  IsReachable, opened, stepped,
}

abbrev is_idle : Task → Bool
is_idle idle = true
is_idle fetching = false
is_idle reading = false
is_idle (waiting delay) = false

abbrev is_waiting : Task → Bool
is_waiting idle = false
is_waiting fetching = false
is_waiting reading = false
is_waiting (waiting delay) = true

-- A connection that is stopped has no timer; one that is not has a fetch, a stream or a timer.
unfoldable pub IsAlive : Connection → Type 0
unfolding is_idle is_waiting
IsAlive c =
    (c.stopped ≡ true → is_waiting c.task ≡ false)
    × (c.stopped ≡ false → is_idle c.task ≡ false)
    × (c.aborted ≡ true → c.stopped ≡ true)

retry-IsAlive : (c : Connection) → IsAlive c → IsAlive (retry c)
unfolding IsAlive retry
retry-IsAlive c h = ground arith

catch_error-IsAlive : (c : Connection) → IsAlive c → IsAlive (catch_error c)
unfolding IsAlive catch_error retry
catch_error-IsAlive c h = ground arith

respond-IsAlive :
    (status : ℕ) (b : Bool) (c : Connection) → IsAlive c → IsAlive (respond status b c)
unfolding IsAlive respond catch_error retry
respond-IsAlive status b c h = ground arith

clear_timer-not_waiting : (t : Task) → is_waiting (clear_timer t) ≡ false
clear_timer-not_waiting idle = refl
clear_timer-not_waiting fetching = refl
clear_timer-not_waiting reading = refl
clear_timer-not_waiting (waiting delay) = refl

Step-IsAlive : {c d : Connection} → Step c d → IsAlive c → IsAlive d
unfolding IsAlive connect stop
Step-IsAlive (responded c status b e) h = respond-IsAlive status b c h
Step-IsAlive (ended c e) h = retry-IsAlive c h
Step-IsAlive (rejected c e) h = catch_error-IsAlive c h
Step-IsAlive (fired c delay e) h = ground arith
Step-IsAlive (stop_called c) h =
    ((λ e. clear_timer-not_waiting c.task), λ e. ground (arith, e), λ e. refl)

open_sse-IsAlive : IsAlive open_sse
unfolding IsAlive open_sse connect
open_sse-IsAlive = ground arith

-- In every state that openSSE reaches, a connection that was not stopped has a fetch, a stream or a
-- timer at work, so that it never goes silent for good, one that was stopped has no timer left, and
-- a fetch is aborted only when the connection was stopped.
pub reachable-IsAlive : {c : Connection} → IsReachable c → IsAlive c
reachable-IsAlive opened = open_sse-IsAlive
reachable-IsAlive (stepped r step) = Step-IsAlive step (reachable-IsAlive r)

-- Once a reachable connection is stopped, by its caller, the abort signal or an answer of 401, no
-- step starts it again and none fetches.
pub Step-stopped :
    {c d : Connection}
    → IsReachable c
    → Step c d
    → c.stopped ≡ true
    → (d.stopped ≡ true) × (d.connects ≡ c.connects)
unfolding IsAlive respond catch_error retry connect stop
Step-stopped r (responded c status b e) h = ground arith
Step-stopped r (ended c e) h = ground arith
Step-stopped r (rejected c e) h = ground arith
Step-stopped r (fired c delay e) h =
    let timer = (reachable-IsAlive r).0 h in ground (arith, e, timer)
Step-stopped r (stop_called c) h = (refl, refl)

-- The delay before a retry.
abbrev HasDelay : Task → ℕ → Type 0
HasDelay idle a = Unit
HasDelay fetching a = Unit
HasDelay reading a = Unit
HasDelay (waiting delay) a = (b : ℕ) × (a ≡ suc b) × (delay ≡ retry_delay b)

unfoldable pub IsTimed : Connection → Type 0
unfolding HasDelay
IsTimed c = HasDelay c.task c.attempt

retry_delay-bounds : (a : ℕ) → (1000 ≤ retry_delay a) × (retry_delay a ≤ 10000)
unfolding retry_delay
retry_delay-bounds a = let positive = one-le-pow a 2 (omega arith) in ground arith

retry-IsTimed : (c : Connection) → IsTimed (retry c)
unfolding IsTimed retry
retry-IsTimed c = elim (Bool-cases c.stopped) [
  | inl e ↦ rw e tt
  | inr e ↦ rw e (c.attempt, refl, refl)
]

catch_error-IsTimed : (c : Connection) → IsTimed (catch_error c)
unfolding IsTimed catch_error
catch_error-IsTimed c = elim (Bool-cases (c.stopped || c.aborted)) [
  | inl e ↦ rw e tt
  | inr e ↦ rw e (retry-IsTimed (record c { errors = suc c.errors }))
]

respond-IsTimed : (status : ℕ) (b : Bool) (c : Connection) → IsTimed (respond status b c)
unfolding IsTimed respond
respond-IsTimed status b c = elim (Bool-cases (nat_eq status 401)) [
  | inl e ↦ rw e tt
  | inr e ↦ elim (Bool-cases (leb 200 status && leb status 299 && b)) [
    | inl e' ↦ rw (e, e') tt
    | inr e' ↦ rw (e, e') (catch_error-IsTimed c)
  ]
]

clear_timer-HasDelay : (t : Task) (a : ℕ) → HasDelay (clear_timer t) a
clear_timer-HasDelay idle a = tt
clear_timer-HasDelay fetching a = tt
clear_timer-HasDelay reading a = tt
clear_timer-HasDelay (waiting delay) a = tt

Step-IsTimed : {c d : Connection} → Step c d → IsTimed d
unfolding IsTimed connect stop
Step-IsTimed (responded c status b e) = respond-IsTimed status b c
Step-IsTimed (ended c e) = retry-IsTimed c
Step-IsTimed (rejected c e) = catch_error-IsTimed c
Step-IsTimed (fired c delay e) = tt
Step-IsTimed (stop_called c) = clear_timer-HasDelay c.task c.attempt

reachable-IsTimed : {c : Connection} → IsReachable c → IsTimed c
unfolding IsTimed open_sse connect
reachable-IsTimed opened = tt
reachable-IsTimed (stepped r step) = Step-IsTimed step

-- Every delay that openSSE sets a timer to is between one second and ten.
pub reachable-delay :
    {c : Connection} (delay : ℕ)
    → IsReachable c
    → c.task ≡ waiting delay
    → (1000 ≤ delay) × (delay ≤ 10000)
unfolding IsTimed
reachable-delay {c} delay r e =
    let (b, after, set) = subst (λ t. HasDelay t c.attempt) e (reachable-IsTimed r) in
    rw set (retry_delay-bounds b)

-- A connection whose attempts fail, `n` more times after the first failure.
unfoldable pub failing : ℕ → Connection → Connection
failing zero c = catch_error c
failing (suc n) c = catch_error (connect (failing n c))

failing-state :
    (n : ℕ) (c : Connection)
    → c.stopped ≡ false
    → c.aborted ≡ false
    → c.attempt ≡ 0
    → ((failing n c).stopped ≡ false)
      × ((failing n c).aborted ≡ false)
      × ((failing n c).attempt ≡ suc n)
      × ((failing n c).task ≡ waiting (retry_delay n))
unfolding failing catch_error retry connect retry_delay
failing-state zero c s a z = rw (s, a, z) (refl, refl, refl, refl)
failing-state (suc n) c s a z =
    let (s', a', z', t) = failing-state n c s a z in rw (s', z') (refl, refl, refl, refl)

-- An answer that opens the stream starts the count of attempts anew.
respond-opens :
    (c : Connection) (status : ℕ)
    → 200 ≤ status
    → status ≤ 299
    → respond status true c ≡ record c { attempt = 0; task = reading }
unfolding respond
respond-opens c status low high =
    let other : nat_eq status 401 ≡ false = ground arith in
    let ok : (leb 200 status && leb status 299 && true) ≡ true = ground arith in rw (other, ok) refl

-- After an answer of status 200 to 299 with a body, whatever was attempted before, and while nobody
-- stops the connection, a failure of the stream and `n` failures of the fetches after it leave a timer
-- of 1000 * 2 ^ n milliseconds, or of 10000 where that is less.
pub failing-delay :
    (n : ℕ) (c : Connection) (status : ℕ)
    → c.stopped ≡ false
    → c.aborted ≡ false
    → 200 ≤ status
    → status ≤ 299
    → (failing n (respond status true c)).task ≡ waiting (min (1000 * 2 ^ n) 10000)
unfolding retry_delay
failing-delay n c status s a low high =
    let opens = respond-opens c status low high in
    let (s', a', z', t) = failing-state n (record c { attempt = 0; task = reading }) s a refl in
    rw opens (t ∙ ap waiting (ground arith))
