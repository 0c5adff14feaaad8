-- ===== src/Qqbot/Gateway/Supervisor/Wakeup.antt =====
-- gateway.go: the loop of `Run` misses no change of the connection state.
use gatus_qqbot.Base.{
  ℕ, Bool, true, false, ◌&&◌, List, [], ◌∷◌, Option, none, some, ◌≡◌, refl, arith, ◌==◌, is_some,
  not, if_cases,
}
use gatus_qqbot.Errors.{Error}
use gatus_qqbot.Qqbot.Gateway.{
  ResumableSession, Gateway, Payload, ReadyData, session_started, session_failed, accept_event,
  record_sequence, ready_accepted, on_ready, event_accepted, observe_event,
}
use gatus_qqbot.Qqbot.Gateway.Invariant.{
  IsSound, new_state-IsSound, session_started-IsSound, session_failed-IsSound, on_ready-IsSound,
  observe_event-IsSound,
}
use gatus_qqbot.Qqbot.Gateway.Supervisor.{
  Config, Watch, Result, running, stopped, System, Event, session_start, session_fail, ready_event,
  other_event, end_context, select_context, select_manager, select_state_changed, select_timer,
  new_system, arm, on_manager, rearmed, after_change, on_state_changed, after_timer, on_timer,
  is_due, select, run_select, step, run,
}

-- Nothing that `Run` has to react to waits without a token or a timer.
pub record IsWatched (g : Gateway) (w : Watch) : Type 0 where
  pub sound : IsSound g.state
  pub outage_seen :
      g.state.recovering ≡ true
      → g.state_changed ≡ false
      → (is_some w.timer ≡ true) × (w.generation ≡ g.state.recovery_generation)
  pub fatal_seen : is_some g.state.fatal_error ≡ true → g.state_changed ≡ true

session_started-IsWatched :
    (g : Gateway) (w : Watch) (identity : ℕ) (r : ResumableSession)
    → IsWatched g w
    → IsWatched (session_started g identity r) w
session_started-IsWatched g w identity r v = record {
  sound = session_started-IsSound g identity r v.sound;
  outage_seen = unfold session_started in (ground (arith, v.outage_seen));
  fatal_seen = unfold session_started in (ground (arith, v.fatal_seen));
}

session_failed-IsWatched :
    (g : Gateway) (w : Watch) (now identity : ℕ) (e : Error) (a b : Bool)
    → IsWatched g w
    → IsWatched (session_failed g now identity e a b).gateway w
session_failed-IsWatched g w now identity e a b v = record {
  sound = session_failed-IsSound g now identity e a b v.sound;
  outage_seen = unfold session_failed in (ground (arith, v.outage_seen));
  fatal_seen = unfold session_failed in (ground (arith, v.fatal_seen));
}

on_ready-IsWatched :
    (g : Gateway) (w : Watch) (p : Option Payload) (d : Option ReadyData)
    → IsWatched g w
    → IsWatched (on_ready g p d).gateway w
on_ready-IsWatched g w none d v = unfold on_ready in v
on_ready-IsWatched g w (some p) d v = record {
  sound = on_ready-IsSound g (some p) d v.sound;
  outage_seen = unfold on_ready ready_accepted in (ground (arith, v.outage_seen));
  fatal_seen = unfold on_ready ready_accepted in (ground (arith, v.fatal_seen));
}

observe_event-IsWatched :
    (g : Gateway) (w : Watch) (p : Option Payload)
    → IsWatched g w
    → IsWatched (observe_event g p).gateway w
observe_event-IsWatched g w none v = unfold observe_event in v
observe_event-IsWatched g w (some p) v = record {
  sound = observe_event-IsSound g (some p) v.sound;
  outage_seen = unfold observe_event event_accepted in (ground (arith, v.outage_seen));
  fatal_seen =
      unfold observe_event event_accepted record_sequence accept_event in
      (ground (arith, v.fatal_seen));
}

-- The same of a system whose `Run` has not returned.
abbrev pub IsLive : System → Type 0
IsLive y = y.result ≡ running → IsWatched y.gateway y.watch

after_change-IsLive :
    (c : Config) (y : System) (now : ℕ) (fatal : Option Error)
    → y.gateway.state.fatal_error ≡ fatal
    → IsSound y.gateway.state
    → IsLive (after_change c y now fatal)
unfolding after_change rearmed arm
after_change-IsLive c y now (some e) f v = λ h. absurd (cc)
after_change-IsLive c y now none f v =
    if_cases IsLive y.gateway.state.recovering
      (λ r.
        if_cases IsLive
          (is_some y.watch.timer && (y.watch.generation == y.gateway.state.recovery_generation))
          (λ same h. record {
            sound = v;
            outage_seen = λ _ _. ground arith;
            fatal_seen = λ k. absurd (ground arith);
          })
          (λ _ h. record {
            sound = v;
            outage_seen = λ _ _. (refl, refl);
            fatal_seen = λ k. absurd (ground arith);
          }))
      (λ r h. record {
        sound = v;
        outage_seen = λ k. absurd (cc);
        fatal_seen = λ k. absurd (ground arith);
      })

on_state_changed-IsLive :
    (c : Config) (y : System) (now : ℕ)
    → IsWatched y.gateway y.watch
    → IsLive (on_state_changed c y now)
unfolding on_state_changed
on_state_changed-IsLive c y now v =
    if_cases IsLive y.ctx_ended (λ _ h. absurd (cc))
      (λ _. after_change-IsLive c _ now _ refl v.sound)

after_timer-IsLive :
    (c : Config) (y : System) (now : ℕ) (fatal : Option Error)
    → y.gateway.state.fatal_error ≡ fatal
    → IsSound y.gateway.state
    → IsLive (after_timer c y now fatal)
unfolding after_timer arm
after_timer-IsLive c y now (some e) f v = λ h. absurd (cc)
after_timer-IsLive c y now none f v =
    if_cases IsLive (not y.gateway.state.recovering)
      (λ r h. record {
        sound = v;
        outage_seen = λ k. absurd (ground arith);
        fatal_seen = λ k. absurd (ground arith);
      })
      (λ r.
        if_cases IsLive (y.watch.generation == y.gateway.state.recovery_generation)
          (λ _ h. absurd (cc))
          (λ _ h. record {
            sound = v;
            outage_seen = λ _ _. (refl, refl);
            fatal_seen = λ k. absurd (ground arith);
          }))

on_timer-IsLive :
    (c : Config) (y : System) (now : ℕ) → IsWatched y.gateway y.watch → IsLive (on_timer c y now)
unfolding on_timer
on_timer-IsLive c y now v =
    if_cases IsLive y.ctx_ended (λ _ h. absurd (cc))
      (λ _. after_timer-IsLive c _ now _ refl v.sound)

select-IsLive :
    (c : Config) (y : System) (e : Event) → IsWatched y.gateway y.watch → IsLive (select c y e)
unfolding select on_manager
select-IsLive c y select_context v = if_cases IsLive y.ctx_ended (λ _ k. absurd (cc)) (λ _ _. v)
select-IsLive c y (select_manager e) v =
    if_cases IsLive y.ctx_ended (λ _ k. absurd (cc)) (λ _ k. absurd (cc))
select-IsLive c y (select_state_changed now) v =
    if_cases IsLive y.gateway.state_changed (λ _. on_state_changed-IsLive c y now v) (λ _ _. v)
select-IsLive c y (select_timer now) v =
    if_cases IsLive (is_due y.watch.timer now) (λ _. on_timer-IsLive c y now v) (λ _ _. v)
select-IsLive c y _ v = λ _. v

run_select-IsLive :
    (c : Config) (y : System) (e : Event) (r : Result)
    → y.result ≡ r
    → IsLive y
    → IsLive (run_select c y e r)
unfolding run_select
run_select-IsLive c y e running h v = select-IsLive c y e (v h)
run_select-IsLive c y e (stopped o) h v = v

step-IsLive : (c : Config) (y : System) (e : Event) → IsLive y → IsLive (step c y e)
unfolding step
step-IsLive c y (session_start identity resume) v =
    λ h. session_started-IsWatched y.gateway y.watch identity resume (v h)
step-IsLive c y (session_fail now identity e a b) v =
    λ h. session_failed-IsWatched y.gateway y.watch now identity e a b (v h)
step-IsLive c y (ready_event p d) v = λ h. on_ready-IsWatched y.gateway y.watch p d (v h)
step-IsLive c y (other_event p) v = λ h. observe_event-IsWatched y.gateway y.watch p (v h)
step-IsLive c y end_context v = v
step-IsLive c y select_context v = run_select-IsLive c y select_context _ refl v
step-IsLive c y (select_manager e) v = run_select-IsLive c y (select_manager e) _ refl v
step-IsLive c y (select_state_changed now) v =
    run_select-IsLive c y (select_state_changed now) _ refl v
step-IsLive c y (select_timer now) v = run_select-IsLive c y (select_timer now) _ refl v

run-IsLive : (c : Config) (y : System) (es : List Event) → IsLive y → IsLive (run c y es)
unfolding run
run-IsLive c y [] v = v
run-IsLive c y (e ∷ es) v = run-IsLive c (step c y e) es (step-IsLive c y e v)

new_system-IsLive : IsLive new_system
new_system-IsLive = λ _. record {
  sound = new_state-IsSound;
  outage_seen = λ k. absurd (cc);
  fatal_seen = λ k. absurd (cc);
}

-- Whatever sessions, events and rounds of `select` follow one another, while `Run` has not returned,
-- the state is sound, an outage has a token waiting or a timer of its own generation armed, and
-- a fatal error has a token waiting: no change is ever missed.
pub reachable-IsLive : (c : Config) (es : List Event) → IsLive (run c new_system es)
reachable-IsLive c es = run-IsLive c new_system es new_system-IsLive
