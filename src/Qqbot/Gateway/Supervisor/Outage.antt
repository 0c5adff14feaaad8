-- ===== src/Qqbot/Gateway/Supervisor/Outage.antt =====
-- gateway.go: a timer that is armed for the latest outage does not fire early.
use gatus_qqbot.Base.{
  ℕ, ◌+◌, ◌^◌, ◌≤◌, ◌<◌, Bool, ◌&&◌, List, [], ◌∷◌, Option, none, some, ◌≡◌, refl, subst, arith,
  ◌==◌, is_some, not, if_cases, length, Bool-cases, inl, inr,
}
use gatus_qqbot.Errors.{Error}
use gatus_qqbot.Qqbot.Gateway.{
  ResumableSession, State, Gateway, Payload, ReadyData, Reaction, session_started, failed_state,
  is_current, session_failed, record_sequence, ready_state, ready_accepted, on_ready,
  event_accepted, observe_event,
}
use gatus_qqbot.Qqbot.Gateway.Supervisor.{
  Config, Result, running, stopped, System, Event, session_start, session_fail, ready_event,
  other_event, end_context, select_context, select_manager, select_state_changed, select_timer,
  recovery_time_remaining, arm, on_manager, rearmed, after_change, on_state_changed, after_timer,
  on_timer, is_due, select, run_select, step, run,
}

-- After `n` events: the generations are in order and have not wrapped, and a timer armed for the
-- latest outage does not fire before the outage's grace period is over.
pub record IsPatient (c : Config) (y : System) (n : ℕ) : Type 0 where
  pub counted : y.gateway.state.recovery_generation ≤ n
  pub behind : y.watch.generation ≤ y.gateway.state.recovery_generation
  pub patient :
      (at : ℕ)
      → y.watch.timer ≡ some at
      → y.watch.generation ≡ y.gateway.state.recovery_generation
      → c.recovery_timeout + y.gateway.state.disconnected_at ≤ at

-- The outage that a state tells of is the one that another tells of.
abbrev SameOutage : State → State → Type 0
SameOutage s t =
    (s.recovery_generation ≡ t.recovery_generation) × (s.disconnected_at ≡ t.disconnected_at)

keep :
    (c : Config) (y : System) (g : Gateway) (n : ℕ)
    → SameOutage g.state y.gateway.state
    → IsPatient c y n
    → IsPatient c (record y { gateway = g }) n
keep c y g n h v = record {
  counted = omega arith;
  behind = omega arith;
  patient = λ at e k. omega (arith, v.patient at e (omega arith));
}

session_started-SameOutage :
    (g : Gateway) (identity : ℕ) (r : ResumableSession)
    → SameOutage (session_started g identity r).state g.state
unfolding session_started
session_started-SameOutage g identity r = ground arith

on_ready-SameOutage :
    (g : Gateway) (p : Option Payload) (d : Option ReadyData)
    → SameOutage (on_ready g p d).gateway.state g.state
unfolding on_ready ready_accepted ready_state record_sequence
on_ready-SameOutage g none d = (refl, refl)
on_ready-SameOutage g (some p) d = ground arith

observe_event-SameOutage :
    (g : Gateway) (p : Option Payload) → SameOutage (observe_event g p).gateway.state g.state
unfolding observe_event event_accepted record_sequence
observe_event-SameOutage g none = (refl, refl)
observe_event-SameOutage g (some p) = ground arith

-- a failure begins a new outage, unless one lasts
fail-IsPatient :
    (c : Config) (y : System) (n now identity : ℕ) (e : Error) (a b : Bool)
    → n + 1 < 2 ^ 64
    → IsPatient c y n
    → IsPatient c
        (record y { gateway = (session_failed y.gateway now identity e a b).gateway })
        (n + 1)
unfolding session_failed failed_state
fail-IsPatient c y n now identity e a b small v =
    if_cases {A = Reaction} (λ r. IsPatient c (record y { gateway = r.gateway }) (n + 1))
      (is_current y.gateway.state identity)
      (λ _. elim (Bool-cases y.gateway.state.recovering) [
        | inl r ↦ record {
          counted = ground arith;
          behind = ground arith;
          patient = λ at h k. ground (arith, v.patient at h);
        }
        | inr r ↦ record {
          counted = ground arith;
          behind = ground arith;
          patient = λ at h k. absurd (ground arith);
        }
      ])
      (λ _. record { counted = omega arith; behind = v.behind; patient = v.patient })

arm_patient :
    (c : Config) (s : State) (now at : ℕ)
    → (arm c s now).timer ≡ some at
    → c.recovery_timeout + s.disconnected_at ≤ at
unfolding arm recovery_time_remaining
arm_patient c s now at h = ground arith

later : (c : Config) (y : System) (n : ℕ) → IsPatient c y n → IsPatient c y (n + 1)
later c y n v = record { counted = omega arith; behind = v.behind; patient = v.patient }

armed :
    (c : Config) (y : System) (n now : ℕ)
    → IsPatient c y n
    → IsPatient c (record y { watch = arm c y.gateway.state now }) n
armed c y n now v = record {
  counted = v.counted;
  behind = unfold arm in (omega arith);
  patient = λ at h k. arm_patient c y.gateway.state now at h;
}

disarmed :
    (c : Config) (y : System) (n : ℕ)
    → IsPatient c y n
    → IsPatient c (record y { watch = record (y.watch) { timer = none } }) n
disarmed c y n v = record {
  counted = v.counted;
  behind = v.behind;
  patient = λ at h k. absurd (cc);
}

after_change-IsPatient :
    (c : Config) (y : System) (n now : ℕ) (fatal : Option Error)
    → IsPatient c y n
    → IsPatient c (after_change c y now fatal) n
unfolding after_change rearmed
after_change-IsPatient c y n now (some e) v = record {
  counted = v.counted;
  behind = v.behind;
  patient = v.patient;
}
after_change-IsPatient c y n now none v =
    if_cases (λ z. IsPatient c z n) y.gateway.state.recovering
      (λ _.
        if_cases (λ z. IsPatient c z n)
          (is_some y.watch.timer && (y.watch.generation == y.gateway.state.recovery_generation))
          (λ _. v) (λ _. armed c y n now v))
      (λ _. disarmed c y n v)

after_timer-IsPatient :
    (c : Config) (y : System) (n now : ℕ) (fatal : Option Error)
    → IsPatient c y n
    → IsPatient c (after_timer c y now fatal) n
unfolding after_timer
after_timer-IsPatient c y n now (some e) v = record {
  counted = v.counted;
  behind = v.behind;
  patient = v.patient;
}
after_timer-IsPatient c y n now none v =
    if_cases (λ z. IsPatient c z n) (not y.gateway.state.recovering) (λ _. v)
      (λ _.
        if_cases (λ z. IsPatient c z n) (y.watch.generation == y.gateway.state.recovery_generation)
          (λ _. record { counted = v.counted; behind = v.behind; patient = v.patient })
          (λ _. armed c y n now v))

select-IsPatient :
    (c : Config) (y : System) (n : ℕ) (e : Event) → IsPatient c y n → IsPatient c (select c y e) n
unfolding select on_manager on_state_changed on_timer
select-IsPatient c y n select_context v =
    if_cases (λ z. IsPatient c z n) y.ctx_ended (λ _. stop v) (λ _. v)
  where
    stop : IsPatient c y n → IsPatient c (record y { result = stopped none }) n
    stop w = record { counted = w.counted; behind = w.behind; patient = w.patient }
select-IsPatient c y n (select_manager e) v =
    if_cases (λ z. IsPatient c z n) y.ctx_ended
      (λ _. record { counted = v.counted; behind = v.behind; patient = v.patient })
      (λ _. record { counted = v.counted; behind = v.behind; patient = v.patient })
select-IsPatient c y n (select_state_changed now) v =
    if_cases (λ z. IsPatient c z n) y.gateway.state_changed
      (λ _.
        if_cases (λ z. IsPatient c z n) y.ctx_ended
          (λ _. record { counted = v.counted; behind = v.behind; patient = v.patient })
          (λ _.
            after_change-IsPatient c _ n now _
              (record { counted = v.counted; behind = v.behind; patient = v.patient })))
      (λ _. v)
select-IsPatient c y n (select_timer now) v =
    if_cases (λ z. IsPatient c z n) (is_due y.watch.timer now)
      (λ _.
        if_cases (λ z. IsPatient c z n) y.ctx_ended
          (λ _. record { counted = v.counted; behind = v.behind; patient = λ at h k. absurd (cc) })
          (λ _. after_timer-IsPatient c _ n now _ (disarmed c y n v)))
      (λ _. v)
select-IsPatient c y n _ v = v

run_select-IsPatient :
    (c : Config) (y : System) (n : ℕ) (e : Event) (r : Result)
    → IsPatient c y n
    → IsPatient c (run_select c y e r) n
unfolding run_select
run_select-IsPatient c y n e running v = select-IsPatient c y n e v
run_select-IsPatient c y n e (stopped o) v = v

step-IsPatient :
    (c : Config) (y : System) (n : ℕ) (e : Event)
    → n + 1 < 2 ^ 64
    → IsPatient c y n
    → IsPatient c (step c y e) (n + 1)
unfolding step
step-IsPatient c y n (session_start identity r) small v =
    later c _ n (keep c y _ n (session_started-SameOutage y.gateway identity r) v)
step-IsPatient c y n (session_fail now identity e a b) small v =
    fail-IsPatient c y n now identity e a b small v
step-IsPatient c y n (ready_event p d) small v =
    later c _ n (keep c y _ n (on_ready-SameOutage y.gateway p d) v)
step-IsPatient c y n (other_event p) small v =
    later c _ n (keep c y _ n (observe_event-SameOutage y.gateway p) v)
step-IsPatient c y n end_context small v = record {
  counted = omega arith;
  behind = v.behind;
  patient = v.patient;
}
step-IsPatient c y n select_context small v =
    later c _ n (run_select-IsPatient c y n select_context y.result v)
step-IsPatient c y n (select_manager e) small v =
    later c _ n (run_select-IsPatient c y n (select_manager e) y.result v)
step-IsPatient c y n (select_state_changed now) small v =
    later c _ n (run_select-IsPatient c y n (select_state_changed now) y.result v)
step-IsPatient c y n (select_timer now) small v =
    later c _ n (run_select-IsPatient c y n (select_timer now) y.result v)

pub run-IsPatient :
    (c : Config) (y : System) (n : ℕ) (es : List Event)
    → n + length es < 2 ^ 64
    → IsPatient c y n
    → IsPatient c (run c y es) (n + length es)
unfolding run
run-IsPatient c y n [] small v = subst (IsPatient c y) (omega arith) v
run-IsPatient c y n (e ∷ es) small v =
    subst (IsPatient c (run c (step c y e) es)) (omega arith) (
      run-IsPatient c (step c y e) (n + 1) es (omega arith)
        (step-IsPatient c y n e (omega arith) v))
