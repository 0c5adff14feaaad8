-- ===== src/Qqbot/Gateway/Invariant.antt =====
-- gateway.go: what holds of the connection state between two critical sections.
use gatus_qqbot.Base.{
  ℕ, Bool, true, false, Option, none, some, ◌≡◌, refl, arith, inl, inr, is_some, Bool-cases,
}
use gatus_qqbot.Errors.{Error}
use gatus_qqbot.Qqbot.Gateway.{
  ResumableSession, State, Gateway, Payload, ReadyData, new_state, session_started, failed_state,
  is_current, session_failed, accept_event, record_sequence, ready_state, ready_accepted, on_ready,
  event_accepted, observe_event,
}

-- An outage has an error to report, and only an outage has; after a fatal error the session is closed,
-- the outage lasts and its error stands; an open session is known.
pub record IsSound (s : State) : Type 0 where
  pub has_error : is_some s.last_error ≡ s.recovering
  pub fatal_closed : is_some s.fatal_error ≡ true → s.current_session_open ≡ false
  pub fatal_lasts : is_some s.fatal_error ≡ true → s.recovering ≡ true
  pub open_known : s.current_session_open ≡ true → is_some s.current_session ≡ true

pub new_state-IsSound : IsSound new_state
new_state-IsSound = ground arith

pub session_started-IsSound :
    (g : Gateway) (identity : ℕ) (r : ResumableSession)
    → IsSound g.state
    → IsSound (session_started g identity r).state
unfolding session_started
session_started-IsSound g identity r v = ground arith

failed_state-IsSound :
    (s : State) (now : ℕ) (e : Error) (no_resume no_identify : Bool)
    → is_some s.current_session ≡ true
    → IsSound s
    → IsSound (failed_state s now e no_resume no_identify)
unfolding failed_state
failed_state-IsSound s now e no_resume no_identify k v = record {
  has_error = refl;
  fatal_closed = λ _. refl;
  fatal_lasts = λ _. refl;
  open_known = λ h. cc;
}

pub session_failed-IsSound :
    (g : Gateway) (now identity : ℕ) (e : Error) (no_resume no_identify : Bool)
    → IsSound g.state
    → IsSound (session_failed g now identity e no_resume no_identify).gateway.state
unfolding session_failed
session_failed-IsSound g now identity e no_resume no_identify v =
    elim (Bool-cases (is_current g.state identity)) [
      | inl h ↦ rw h (
          failed_state-IsSound g.state now e no_resume no_identify
            (v.open_known (unfold is_current in (ground arith))) v)
      | inr h ↦ rw h v
    ]

ready_state-IsSound :
    (s : State) (p : Payload) (d : Option ReadyData)
    → accept_event s (some p) ≡ true
    → IsSound s
    → IsSound (ready_state s p d)
unfolding ready_state accept_event record_sequence
ready_state-IsSound s p d h v = ground arith

pub on_ready-IsSound :
    (g : Gateway) (p : Option Payload) (d : Option ReadyData)
    → IsSound g.state
    → IsSound (on_ready g p d).gateway.state
unfolding on_ready ready_accepted
on_ready-IsSound g none d v = v
on_ready-IsSound g (some p) d v = elim (Bool-cases (accept_event g.state (some p))) [
  | inl h ↦ rw h (ready_state-IsSound g.state p d h v)
  | inr h ↦ rw h v
]

event_accepted-IsSound :
    (g : Gateway) (p : Payload)
    → accept_event g.state (some p) ≡ true
    → IsSound g.state
    → IsSound (event_accepted g p).gateway.state
unfolding event_accepted accept_event record_sequence
event_accepted-IsSound g p h v = ground arith

pub observe_event-IsSound :
    (g : Gateway) (p : Option Payload) → IsSound g.state → IsSound (observe_event g p).gateway.state
unfolding observe_event
observe_event-IsSound g none v = v
observe_event-IsSound g (some p) v = elim (Bool-cases (accept_event g.state (some p))) [
  | inl h ↦ rw h (event_accepted-IsSound g p h v)
  | inr h ↦ rw h v
]
