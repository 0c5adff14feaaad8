-- ===== src/Qqbot/Session.antt =====
-- internal/qqbot/gateway_session.go: the loop of `Start` that supervises the attempts at a session,
-- over a list of what they meet.
pub mod Attempts
pub mod Supervise
pub mod Observed
pub mod Recorded
mod Tests
use gatus_qqbot.Base.{
  ℕ, suc, Bool, true, false, not, List, [], ◌∷◌, ◌++◌, Option, none, some, ◌==◌, if◌then◌else◌, ◌⊎◌,
  inl, inr,
}
use gatus_qqbot.Errors.{Error, message, wrap}
use gatus_qqbot.Qqbot.Websocket.{
  Outcome, returns, panics, Ending, context_done, listened, Client, Creation, creation_panics,
  no_client, no_identity, created, ClientCall, connect_call, identify_call, resume_call,
  listening_call, close_call, Run, invalid_client, new_websocket_attempt, listen_websocket,
  recovered_run, closed_run, run_listening, unless_ended, run_handshake, handshake_call,
  run_connected, run_websocket_attempt,
}
use gatus_qqbot.Qqbot.Gateway.{ResumableSession, empty_resume}
use gatus_qqbot.Strings.{Text, codes, is_empty}

-- `sessionObserver` over a state, with what else happens to that state while an attempt runs. The
-- failure comes with the time at which it is observed.
pub record Observer (S E : Type 0) : Type 0 where
  pub session_started : S → ℕ → ResumableSession → S
  pub session_failed : S → ℕ → ℕ → Error → Bool → Bool → S × ResumableSession
  pub meanwhile : S → E → S

-- `manager.CanNotResume` and `manager.CanNotIdentify`
pub record Codes : Type 0 where
  pub can_not_resume : Error → Bool
  pub can_not_identify : Error → Bool

-- What one pass through the loop meets: whether the context has ended when, or before, the delay is
-- over; what the factory makes; what happens to the observer's state while the client runs;
-- whether the context has ended behind the run; and the time of the failure.
pub record Attempt (E : Type 0) : Type 0 where
  pub interrupted : Bool
  pub creation : Creation
  pub event : E
  pub ended : Bool
  pub now : ℕ

-- what one attempt did: its delay, the session it asked for, and its run
pub record Trace : Type 0 where
  pub delay : ℕ
  pub asked : ResumableSession
  pub run : Run

pub data Stop : Type 0 where
  trying : Stop
  stopped : Option Error → Stop

-- The observer's state, the attempts that made a client, and the result; `trying` says that the
-- script of the attempts is over and the loop is not.
pub record Progress (S : Type 0) : Type 0 where
  pub state : S
  pub traces : List Trace
  pub result : Stop

-- How one pass through the loop ends: with the session to resume, or with the result of `Start`.
pub data Next : Type 0 where
  go_on : ResumableSession → Next
  stop : Option Error → Next

pub record Pass (S : Type 0) : Type 0 where
  pub state : S
  pub traces : List Trace
  pub next : Next

-- waitForSessionAttempt, with a delay and without one: whether the context still runs
abbrev pub wait_for_session_attempt : Bool → Bool
wait_for_session_attempt interrupted = not interrupted

-- the error that the loop goes on with when the run is over
unfoldable pub attempt_error : Option Error → Error
attempt_error (some e) = e
attempt_error none = message (codes "BotGo WebSocket listener stopped unexpectedly")

-- closeSessionAttempt
unfoldable pub close_session_attempt :
    {S E : Type 0} → Observer S E → Codes → S → ℕ → ℕ → Error → (S × ResumableSession) × Bool
close_session_attempt o k s now identity e = (
  o.session_failed s now identity e (k.can_not_resume e) (k.can_not_identify e),
  k.can_not_identify e,
)

-- what follows a run in the loop
unfoldable pub after_run :
    {S E : Type 0} → Observer S E → Codes → S → Attempt E → ℕ → Trace → Option Error → Pass S
unfolding close_session_attempt attempt_error
after_run o k s a identity t err =
    let e = attempt_error err in
    let closed = close_session_attempt o k s a.now identity e in
    if a.ended then record { state = s; traces = t ∷ []; next = stop none } else record {
      state = closed.0.0;
      traces = t ∷ [];
      next = (if closed.1 then stop (some e) else go_on closed.0.1);
    }

unfoldable pub run_created :
    {S E : Type 0}
    → Observer S E
    → Codes
    → ℕ
    → ResumableSession
    → S
    → Attempt E
    → Error ⊎ (ℕ × Client)
    → Pass S
unfolding after_run run_websocket_attempt
run_created o k delay resume s a (inl e) = record { state = s; traces = []; next = stop (some e) }
run_created o k delay resume s a (inr (identity, c)) =
    let r = run_websocket_attempt c (not (is_empty resume.id)) in
    after_run o k (o.meanwhile (o.session_started s identity resume) a.event) a identity
      (record { delay = delay; asked = resume; run = r }) r.err

-- one pass through the loop
unfoldable pub pass_attempt :
    {S E : Type 0} → Observer S E → Codes → ℕ → ResumableSession → S → Attempt E → Pass S
unfolding run_created new_websocket_attempt
pass_attempt o k delay resume s a =
    if wait_for_session_attempt a.interrupted
    then run_created o k delay resume s a (new_websocket_attempt a.creation)
    else record { state = s; traces = []; next = stop none }

-- what follows a pass: the rest of the loop, or the result
unfoldable pub follow : {S : Type 0} → Pass S → (ResumableSession → Progress S) → Progress S
follow p rest = elim p.next [
  | stop r ↦ record { state = p.state; traces = p.traces; result = stopped r }
  | go_on resume ↦ record (rest resume) { traces = p.traces ++ (rest resume).traces }
]

-- The loop of `Start`, from an attempt with the given delay on.
unfoldable pub start_from :
    {S E : Type 0}
    → Observer S E
    → Codes
    → ℕ
    → ℕ
    → ResumableSession
    → S
    → List (Attempt E)
    → Progress S
unfolding follow
start_from o k interval delay resume s [] = record { state = s; traces = []; result = trying }
start_from o k interval delay resume s (a ∷ rest) =
    let p = pass_attempt o k delay resume s a in
    follow p (λ resume'. start_from o k interval interval resume' p.state rest)

-- What `Start` checks before the loop: `ctx.Err()`, its arguments, the factory,
-- `manager.CheckSessionLimit` and the number of shards with its decimal form; and what the retry
-- interval is made of. A duration that is not positive is 0.
pub record Request : Type 0 where
  pub ended : Bool
  pub has_arguments : Bool
  pub has_factory : Bool
  pub session_limit : Option Error
  pub shards : ℕ
  pub shards_text : Text
  pub calc_interval : ℕ
  pub retry_interval : Option ℕ

unfoldable pub interval_of : Request → ℕ
interval_of q = elim q.retry_interval [ none ↦ q.calc_interval | some d ↦ d ]

abbrev pub first_resume : ResumableSession
first_resume = record empty_resume { shards = record { shard_id = 0; shard_count = 1 } }

-- the check that fails, if one does
unfoldable pub refusal : Request → Option Error → Option Error
refusal q (some e) = some (wrap (codes "start QQ gateway session: ") e)
refusal q none =
    if q.shards == 1
    then none
    else some (
        message
          (codes "start QQ gateway session: got " ++ (q.shards_text ++ codes " shards, want 1")))

unfoldable pub refused : Request → Option Error
unfolding refusal
refused q =
    if not q.has_arguments
    then some (message (codes "start QQ gateway session: invalid arguments"))
    else if not q.has_factory
    then some (message (codes "start QQ gateway session: BotGo WebSocket client is not registered"))
    else refusal q q.session_limit

unfoldable pub start_checked :
    {S E : Type 0}
    → Observer S E
    → Codes
    → Request
    → S
    → List (Attempt E)
    → Option Error
    → Progress S
unfolding start_from interval_of
start_checked o k q s attempts (some e) = record {
  state = s;
  traces = [];
  result = stopped (some e);
}
start_checked o k q s attempts none = start_from o k (interval_of q) 0 first_resume s attempts

-- Start
unfoldable pub start :
    {S E : Type 0} → Observer S E → Codes → Request → S → List (Attempt E) → Progress S
unfolding start_checked refused
start o k q s attempts =
    if q.ended
    then record { state = s; traces = []; result = stopped none }
    else start_checked o k q s attempts (refused q)
