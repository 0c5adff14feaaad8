-- ===== src/Qqbot/Gateway.antt =====
-- internal/qqbot/gateway.go: the connection state that the session manager and the event handlers
-- share, and the handlers. A pointer to a session is its address, a number; a time is a number of
-- nanoseconds. Each function is one critical section of `stateMu` with what follows it; the channel
-- `stateChanged` holds at most one token, and `ready` says that the channel of that name is closed.
pub mod Invariant
pub mod Supervisor
pub mod Discovery
pub mod Handlers
pub mod Tests
use gatus_qqbot.Base.{
  ℕ, suc, ◌+◌, ◌%◌, ◌^◌, Bool, true, false, ◌&&◌, not, List, [], ◌∷◌, ◌++◌, Option, none, some, ltb,
  ◌==◌, if◌then◌else◌, is_some,
}
use gatus_qqbot.Errors.{Error}
use gatus_qqbot.Strings.{Text, codes, is_empty}

-- dto.ShardConfig
pub record ShardConfig : Type 0 where
  pub shard_id : ℕ
  pub shard_count : ℕ

pub record ResumableSession : Type 0 where
  pub id : Text
  pub last_seq : ℕ
  pub shards : ShardConfig

-- gatewayConnectionState
pub record State : Type 0 where
  pub current_session : Option ℕ
  pub current_session_open : Bool
  pub resume : ResumableSession
  pub recovering : Bool
  pub recovery_generation : ℕ
  pub disconnected_at : ℕ
  pub last_error : Option Error
  pub fatal_error : Option Error

pub record Gateway : Type 0 where
  pub state : State
  pub ready : Bool
  pub state_changed : Bool

-- the parts of dto.WSPayload, dto.WSReadyData and the group message that the handlers read
pub record Payload : Type 0 where
  pub session : Option ℕ
  pub seq : ℕ
  pub event_type : Text

pub record ReadyData : Type 0 where
  pub session_id : Text
  pub username : Text
  pub shard : List ℕ

pub data LogLine : Type 0 where
  gateway_ready : Text → LogLine
  gateway_recovered : Text → LogLine
  ready_ignored : LogLine
  connection_interrupted cannot_reconnect connection_error error_notified : Error → LogLine
  group_message : Text → LogLine

-- What a handler leaves behind.
pub record Reaction : Type 0 where
  pub gateway : Gateway
  pub logged : List LogLine

abbrev pub empty_resume : ResumableSession
empty_resume = record { id = []; last_seq = 0; shards = record { shard_id = 0; shard_count = 0 } }

-- the zero value of the state
abbrev pub new_state : State
new_state = record {
  current_session = none;
  current_session_open = false;
  resume = empty_resume;
  recovering = false;
  recovery_generation = 0;
  disconnected_at = 0;
  last_error = none;
  fatal_error = none;
}

abbrev pub new_gateway : Gateway
new_gateway = record { state = new_state; ready = false; state_changed = false }

-- a send on a channel of capacity 1, with a default
abbrev pub notify_state_changed : Gateway → Gateway
notify_state_changed g = record g { state_changed = true }

abbrev pub is_none : Option Error → Bool
is_none o = not (is_some o)

-- equality of pointers
unfoldable pub same_session : Option ℕ → Option ℕ → Bool
same_session none none = true
same_session (some a) (some b) = a == b
same_session _ _ = false

unfoldable pub session_started : Gateway → ℕ → ResumableSession → Gateway
session_started g identity resume =
    if is_none g.state.fatal_error
    then record g {
      state = record (g.state) {
        current_session = some identity;
        current_session_open = true;
        resume = resume;
      };
    }
    else g

-- the state that `sessionFailed` leaves for the session that is current and open
unfoldable pub failed_state : State → ℕ → Error → Bool → Bool → State
failed_state s now err cannot_resume cannot_identify =
    let resume' = if cannot_resume then record (s.resume) { id = []; last_seq = 0 } else s.resume in
    record s {
      current_session_open = false;
      resume = resume';
      recovering = true;
      recovery_generation =
          (if s.recovering then s.recovery_generation else (s.recovery_generation + 1) % 2 ^ 64);
      disconnected_at = (if s.recovering then s.disconnected_at else now);
      last_error = some err;
      fatal_error = (if cannot_identify && is_none s.fatal_error then some err else s.fatal_error);
    }

-- the session whose failure counts
unfoldable pub is_current : State → ℕ → Bool
unfolding same_session
is_current s identity = same_session (some identity) s.current_session && s.current_session_open

-- The result `resume` is that of the state left behind.
unfoldable pub session_failed : Gateway → ℕ → ℕ → Error → Bool → Bool → Reaction
session_failed g now identity err cannot_resume cannot_identify =
    if is_current g.state identity
    then record {
      gateway =
          notify_state_changed
            (record g { state = failed_state g.state now err cannot_resume cannot_identify });
      logged = (if cannot_identify then cannot_reconnect err else connection_interrupted err) ∷ [];
    }
    else record { gateway = g; logged = [] }

-- acceptEventLocked; a payload that is nil is `none`
unfoldable pub accept_event : State → Option Payload → Bool
unfolding same_session
accept_event s none = false
accept_event s (some p) =
    is_some p.session
    && same_session p.session s.current_session
    && s.current_session_open
    && is_none s.fatal_error

-- recordSequenceLocked
unfoldable pub record_sequence : State → Payload → State
record_sequence s p =
    if ltb 0 p.seq then record s { resume = record (s.resume) { last_seq = p.seq } } else s

abbrev pub recovered_state : State → State
recovered_state s = record s { recovering = false; last_error = none }

-- the shard of READY, if it has two numbers
unfoldable pub shards_of : ShardConfig → List ℕ → ShardConfig
shards_of old [] = old
shards_of old (a ∷ []) = old
shards_of old (a ∷ b ∷ rest) = record { shard_id = a; shard_count = b }

unfoldable pub ready_resume : ResumableSession → Option ReadyData → ResumableSession
unfolding shards_of
ready_resume r none = r
ready_resume r (some d) = record r { id = d.session_id; shards = shards_of r.shards d.shard }

-- the state that an accepted READY leaves
unfoldable pub ready_state : State → Payload → Option ReadyData → State
unfolding record_sequence ready_resume
ready_state s p d =
    let s' = record_sequence s p in
    recovered_state (record s' { resume = ready_resume s'.resume d })

abbrev pub username_of : Option ReadyData → Text
username_of none = []
username_of (some d) = d.username

-- the log of the READY handler, which also closes `ready` once
unfoldable pub ready_log : Bool → Bool → Option ReadyData → List LogLine
ready_log false recovered d = gateway_ready (username_of d) ∷ []
ready_log true true d = gateway_recovered (codes "READY") ∷ []
ready_log true false d = []

unfoldable pub ready_accepted : Gateway → Payload → Option ReadyData → Reaction
ready_accepted g p d = record {
  gateway = notify_state_changed (record g { state = ready_state g.state p d; ready = true });
  logged = ready_log g.ready g.state.recovering d;
}

-- the READY handler, with `markReady`
unfoldable pub on_ready : Gateway → Option Payload → Option ReadyData → Reaction
on_ready g none d = record { gateway = g; logged = ready_ignored ∷ [] }
on_ready g (some p) d =
    if accept_event g.state (some p)
    then ready_accepted g p d
    else record { gateway = g; logged = ready_ignored ∷ [] }

unfoldable pub event_accepted : Gateway → Payload → Reaction
event_accepted g p =
    let g' = record g { state = recovered_state (record_sequence g.state p) } in
    if g.state.recovering
    then record { gateway = notify_state_changed g'; logged = gateway_recovered p.event_type ∷ [] }
    else record { gateway = g'; logged = [] }

-- `observeEvent`, which is the whole of four of the handlers
unfoldable pub observe_event : Gateway → Option Payload → Reaction
observe_event g none = record { gateway = g; logged = [] }
observe_event g (some p) =
    if accept_event g.state (some p)
    then event_accepted g p
    else record { gateway = g; logged = [] }

-- what `groupOpenIDFromEvent` makes of the decoded raw message, if there is one (the fields
-- group_openid and group_id), and of the group id of the event's data
unfoldable pub group_open_id : Option (Text × Text) → Option Text → Text
group_open_id none none = []
group_open_id none (some id) = id
group_open_id (some (open_id, group_id)) d =
    if not (is_empty open_id)
    then open_id
    else if not (is_empty group_id)
    then group_id
    else elim d [ none ↦ [] | some id ↦ id ]

-- the handler of group messages
unfoldable pub on_group_message :
    Gateway → Option Payload → Option (Text × Text) → Option Text → Reaction
on_group_message g p envelope d =
    let r = observe_event g p in
    let id = group_open_id envelope d in
    let accepted = accept_event g.state p in
    if accepted && not (is_empty id)
    then record r { logged = r.logged ++ group_message id ∷ [] }
    else r
