-- ===== src/Qqbot/Session/Tests.antt =====
-- gateway_session.go at concrete scripts.
use gatus_qqbot.Base.{ℕ, Bool, true, false, List, [], ◌∷◌, none, some, ◌≡◌, refl, length}
use gatus_qqbot.Errors.{Error, message}
use gatus_qqbot.Qqbot.Gateway.{
  new_gateway, session_started, failed_state, is_current, session_failed, same_session, on_ready,
  ready_accepted, ready_state, record_sequence, ready_resume, shards_of, accept_event,
}
use gatus_qqbot.Qqbot.Websocket.{
  returns, panics, listened, Client, ClientCall, connect_call, identify_call, resume_call,
  listening_call, created, new_websocket_attempt, listen_websocket, run_listening, unless_ended,
  run_handshake, run_connected, run_websocket_attempt,
}
use gatus_qqbot.Qqbot.Session.{
  Codes, Attempt, Trace, trying, stopped, attempt_error, close_session_attempt, after_run,
  run_created, pass_attempt, follow, start_from, Request, interval_of, refusal, refused,
  start_checked, start,
}
use gatus_qqbot.Qqbot.Session.Observed.{
  Handled, ready_handled, gateway_observer, handle, handle_all,
}
use gatus_qqbot.Qqbot.Session.Recorded.{Settled, IsFresh, start-Settled, start-IsFresh}
use gatus_qqbot.Qqbot.Session.Supervise.{StopsFor, start-StopsFor, start_persists}
use gatus_qqbot.Strings.{codes, is_empty, text_eq}

abbrev lost : Error
lost = message (codes "lost")

abbrev banned : Error
banned = message (codes "banned")

-- a client that connects, shakes hands, listens and loses the connection
abbrev losing : Error → Client
losing e = record {
  connect = returns none;
  after_connect = none;
  identify = returns none;
  resume = returns none;
  after_handshake = none;
  ending = listened (returns (some e));
}

-- a client whose handshake panics
abbrev panicking : Client
panicking = record (losing lost) { identify = panics (codes "nil map") }

abbrev ready_of : ℕ → List Handled
ready_of identity =
    ready_handled (some (record { session = some identity; seq = 3; event_type = codes "READY" }))
      (some (record { session_id = codes "s1"; username = codes "bot"; shard = [] }))
    ∷ []

abbrev attempt : ℕ → Client → List Handled → Attempt (List Handled)
attempt identity c hs = record {
  interrupted = false;
  creation = created identity c;
  event = hs;
  ended = false;
  now = identity;
}

-- Every error allows Resume and Identify.
abbrev lenient : Codes
lenient = record { can_not_resume = (λ e. false); can_not_identify = (λ e. false) }

is_banned : Error → Bool
is_banned (message t) = text_eq t (codes "banned")
is_banned _ = false

-- Every error forbids Resume, and `banned` forbids Identify.
abbrev strict : Codes
strict = record { can_not_resume = (λ e. true); can_not_identify = is_banned }

abbrev one_shard : Request
one_shard = record {
  ended = false;
  has_arguments = true;
  has_factory = true;
  session_limit = none;
  shards = 1;
  shards_text = codes "1";
  calc_interval = 5;
  retry_interval = none;
}

abbrev script : List (Attempt (List Handled))
script = attempt 1 (losing lost) (ready_of 1) ∷ attempt 2 (losing banned) [] ∷ []

abbrev calls_of : List Trace → List (List ClientCall)
calls_of [] = []
calls_of (t ∷ ts) = t.run.calls ∷ calls_of ts

-- After READY the second attempt resumes.
resumes :
    calls_of (start gateway_observer lenient one_shard new_gateway script).traces
    ≡ (connect_call ∷ identify_call ∷ listening_call ∷ [])
      ∷ (connect_call ∷ resume_call ∷ listening_call ∷ [])
      ∷ []
unfolding start start_checked refused refusal start_from follow pass_attempt run_created after_run
    close_session_attempt attempt_error run_websocket_attempt run_connected run_handshake
    run_listening unless_ended listen_websocket new_websocket_attempt interval_of handle_all handle
    on_ready ready_accepted ready_state record_sequence ready_resume shards_of accept_event
    session_started session_failed failed_state is_current same_session is_empty
resumes = refl

-- An error that forbids Resume makes the second attempt identify, and `banned` stops the loop.
identifies_and_stops :
    ((start gateway_observer strict one_shard new_gateway script).result ≡ stopped (some banned))
    × (calls_of (start gateway_observer strict one_shard new_gateway script).traces
        ≡ (connect_call ∷ identify_call ∷ listening_call ∷ [])
          ∷ (connect_call ∷ identify_call ∷ listening_call ∷ [])
          ∷ [])
unfolding start start_checked refused refusal start_from follow pass_attempt run_created after_run
    close_session_attempt attempt_error run_websocket_attempt run_connected run_handshake
    run_listening unless_ended listen_websocket new_websocket_attempt interval_of handle_all handle
    on_ready ready_accepted ready_state record_sequence ready_resume shards_of accept_event
    session_started session_failed failed_state is_current same_session is_empty is_banned text_eq
identifies_and_stops = (refl, refl)

start-StopsFor_example : StopsFor gateway_observer strict one_shard new_gateway script (some banned)
start-StopsFor_example =
    start-StopsFor gateway_observer strict one_shard new_gateway script (some banned)
      identifies_and_stops.0

start_persists_example :
    ((start gateway_observer lenient one_shard new_gateway script).result ≡ trying)
    × (length (start gateway_observer lenient one_shard new_gateway script).traces ≡ 2)
unfolding refused refusal new_websocket_attempt
start_persists_example =
    start_persists gateway_observer lenient one_shard new_gateway script refl refl (λ e. refl)
      ((refl, refl, (1, losing lost, refl)), ((refl, refl, (2, losing banned, refl)), tt))

start-Settled_example :
    Settled strict one_shard new_gateway script
      (start gateway_observer strict one_shard new_gateway script)
start-Settled_example = start-Settled strict one_shard new_gateway script refl

start-IsFresh_example :
    IsFresh strict true (start gateway_observer strict one_shard new_gateway script).traces
start-IsFresh_example = start-IsFresh strict one_shard new_gateway script refl
