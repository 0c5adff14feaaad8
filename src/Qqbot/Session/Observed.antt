-- ===== src/Qqbot/Session/Observed.antt =====
-- gateway_session.go with gateway.go: the gateway as the observer of its own sessions, while the
-- event handlers run beside the attempts.
use gatus_qqbot.Base.{
  ℕ, true, false, not, List, [], ◌∷◌, Option, none, some, ==_refl, is_some, ◌≡◌, refl, ◌∙◌,
  if_cases, arith,
}
use gatus_qqbot.Errors.{Error}
use gatus_qqbot.Qqbot.Gateway.{
  ResumableSession, State, Gateway, Reaction, Payload, ReadyData, session_started, failed_state,
  is_current, session_failed, same_session, on_ready, ready_accepted, ready_state, record_sequence,
  observe_event, event_accepted, on_group_message,
}
use gatus_qqbot.Qqbot.Session.{Observer, Codes, Attempt}
use gatus_qqbot.Qqbot.Session.Attempts.{failure, running_state}
use gatus_qqbot.Strings.{Text}

-- a run of an event handler
pub data Handled : Type 0 where
  ready_handled : Option Payload → Option ReadyData → Handled
  event_handled : Option Payload → Handled
  group_handled : Option Payload → Option (Text × Text) → Option Text → Handled

unfoldable pub handle : Gateway → Handled → Gateway
unfolding on_ready observe_event on_group_message
handle g (ready_handled p d) = (on_ready g p d).gateway
handle g (event_handled p) = (observe_event g p).gateway
handle g (group_handled p envelope d) = (on_group_message g p envelope d).gateway

unfoldable pub handle_all : Gateway → List Handled → Gateway
unfolding handle
handle_all g [] = g
handle_all g (h ∷ hs) = handle_all (handle g h) hs

abbrev pub gateway_observer : Observer Gateway (List Handled)
gateway_observer = record {
  session_started = session_started;
  session_failed = (λ g now identity e cannot_resume cannot_identify.
      let g' = (session_failed g now identity e cannot_resume cannot_identify).gateway in
      (g', g'.state.resume));
  meanwhile = handle_all;
}

-- what the handlers leave alone
abbrev pub SameSession : Gateway → Gateway → Type 0
SameSession g g' =
    (g'.state.current_session ≡ g.state.current_session)
    × (g'.state.current_session_open ≡ g.state.current_session_open)
    × (g'.state.fatal_error ≡ g.state.fatal_error)

record_sequence-SameSession :
    (s : State) (p : Payload)
    → ((record_sequence s p).current_session ≡ s.current_session)
      × ((record_sequence s p).current_session_open ≡ s.current_session_open)
      × ((record_sequence s p).fatal_error ≡ s.fatal_error)
unfolding record_sequence
record_sequence-SameSession s p =
    if_cases
      (λ (x : State).
        (x.current_session ≡ s.current_session)
        × (x.current_session_open ≡ s.current_session_open)
        × (x.fatal_error ≡ s.fatal_error))
      _ (λ _. (refl, refl, refl)) (λ _. (refl, refl, refl))

on_ready-SameSession :
    (g : Gateway) (p : Option Payload) (d : Option ReadyData)
    → SameSession g (on_ready g p d).gateway
unfolding on_ready ready_accepted ready_state
on_ready-SameSession g none d = (refl, refl, refl)
on_ready-SameSession g (some p) d =
    if_cases (λ (r : Reaction). SameSession g r.gateway) _
      (λ _. record_sequence-SameSession g.state p) (λ _. (refl, refl, refl))

event_accepted-SameSession :
    (g : Gateway) (p : Payload) → SameSession g (event_accepted g p).gateway
unfolding event_accepted
event_accepted-SameSession g p =
    if_cases (λ (r : Reaction). SameSession g r.gateway) _
      (λ _. record_sequence-SameSession g.state p) (λ _. record_sequence-SameSession g.state p)

observe_event-SameSession :
    (g : Gateway) (p : Option Payload) → SameSession g (observe_event g p).gateway
unfolding observe_event
observe_event-SameSession g none = (refl, refl, refl)
observe_event-SameSession g (some p) =
    if_cases (λ (r : Reaction). SameSession g r.gateway) _ (λ _. event_accepted-SameSession g p)
      (λ _. (refl, refl, refl))

handle-SameSession : (g : Gateway) (h : Handled) → SameSession g (handle g h)
unfolding handle on_group_message
handle-SameSession g (ready_handled p d) = on_ready-SameSession g p d
handle-SameSession g (event_handled p) = observe_event-SameSession g p
handle-SameSession g (group_handled p envelope d) =
    if_cases (λ (r : Reaction). SameSession g r.gateway) _ (λ _. observe_event-SameSession g p)
      (λ _. observe_event-SameSession g p)

handle_all-SameSession : (g : Gateway) (hs : List Handled) → SameSession g (handle_all g hs)
unfolding handle_all
handle_all-SameSession g [] = (refl, refl, refl)
handle_all-SameSession g (h ∷ hs) =
    let (a, b, c) = handle-SameSession g h in
    let (a', b', c') = handle_all-SameSession (handle g h) hs in (a' ∙ a, b' ∙ b, c' ∙ c)

-- A session that has started is current while it runs, and no error is fatal yet.
abbrev pub IsRunning : ℕ → Gateway → Type 0
IsRunning identity g =
    (g.state.current_session ≡ some identity)
    × (g.state.current_session_open ≡ true)
    × (g.state.fatal_error ≡ none)

session_started-IsRunning :
    (g : Gateway) (identity : ℕ) (resume : ResumableSession) (fatal : Option Error)
    → g.state.fatal_error ≡ fatal
    → fatal ≡ none
    → IsRunning identity (session_started g identity resume)
unfolding session_started
session_started-IsRunning g identity resume fatal h q =
    if_cases (IsRunning identity) (not (is_some g.state.fatal_error)) (λ _. (refl, refl, h ∙ q))
      (λ x. absurd (ground arith))

pub running_state-IsRunning :
    (k : Codes) (resume : ResumableSession) (g : Gateway) (a : Attempt (List Handled))
    (identity : ℕ)
    → g.state.fatal_error ≡ none
    → IsRunning identity (running_state gateway_observer k resume g a identity)
running_state-IsRunning k resume g a identity h =
    let (x, y, z) = session_started-IsRunning g identity resume none h refl in
    let (x', y', z') = handle_all-SameSession (session_started g identity resume) a.event in
    (x' ∙ x, y' ∙ y, z' ∙ z)

-- What a failure leaves: the error is on record, and it is fatal if it forbids Identify; the session
-- that is asked for next has neither ID nor sequence number if the error forbids Resume.
abbrev pub IsRecorded : Codes → Error → Gateway × ResumableSession → Type 0
IsRecorded k e f =
    (f.0.state.current_session_open ≡ false)
    × (f.0.state.recovering ≡ true)
    × (f.0.state.last_error ≡ some e)
    × (k.can_not_identify e ≡ true → f.0.state.fatal_error ≡ some e)
    × (k.can_not_identify e ≡ false → f.0.state.fatal_error ≡ none)
    × (k.can_not_resume e ≡ true → (f.1.id ≡ []) × (f.1.last_seq ≡ 0))

is_current-IsRunning :
    (g : Gateway) (identity : ℕ) → IsRunning identity g → is_current g.state identity ≡ true
unfolding is_current same_session
is_current-IsRunning g identity (x, y, z) = rw (x, y) (ground (arith, ==_refl identity))

failed_state-IsRecorded :
    (k : Codes) (g : Gateway) (now identity : ℕ) (e : Error)
    → g.state.fatal_error ≡ none
    → let s = failed_state g.state now e (k.can_not_resume e) (k.can_not_identify e) in
      IsRecorded k e (record g { state = s; state_changed = true }, s.resume)
unfolding failed_state
failed_state-IsRecorded k g now identity e h =
    (refl, refl, refl, λ i. ground arith, λ i. ground arith, λ i. ground arith)

pub failure-IsRecorded :
    (k : Codes) (g : Gateway) (a : Attempt (List Handled)) (identity : ℕ) (e : Error)
    → IsRunning identity g
    → IsRecorded k e (failure gateway_observer k g a identity e)
unfolding session_failed
failure-IsRecorded k g a identity e h =
    if_cases (λ (r : Reaction). IsRecorded k e (r.gateway, r.gateway.state.resume))
      (is_current g.state identity) (λ _. failed_state-IsRecorded k g a.now identity e h.2)
      (λ c. absurd (ground (arith, is_current-IsRunning g identity h)))
