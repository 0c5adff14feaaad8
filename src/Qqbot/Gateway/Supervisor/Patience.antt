-- ===== src/Qqbot/Gateway/Supervisor/Patience.antt =====
-- gateway.go: `Run` gives an outage its whole grace period.
use gatus_qqbot.Base.{
  ℕ, ◌+◌, ◌^◌, ◌≤◌, ◌<◌, true, false, List, Option, none, some, ◌≡◌, refl, subst, arith, length,
  Bool-cases, inl, inr,
}
use gatus_qqbot.Errors.{Error}
use gatus_qqbot.Qqbot.Gateway.Supervisor.{
  Config, running, stopped, System, Event, select_timer, new_system, after_timer, on_timer, is_due,
  select, run_select, step, run,
}
use gatus_qqbot.Qqbot.Gateway.Supervisor.Outage.{IsPatient, run-IsPatient}

is_due_at :
    (timer : Option ℕ) (now : ℕ)
    → is_due timer now ≡ true
    → (at : ℕ) × (timer ≡ some at) × (at ≤ now)
unfolding is_due
is_due_at none now h = absurd (cc)
is_due_at (some at) now h = (at, refl, ground arith)

-- a fired timer that ends `Run` is that of the present outage
timer_stops :
    (c : Config) (y : System) (now : ℕ) (r : Option Error) (fatal : Option Error)
    → fatal ≡ none
    → y.result ≡ running
    → (after_timer c y now fatal).result ≡ stopped r
    → y.watch.generation ≡ y.gateway.state.recovery_generation
unfolding after_timer
timer_stops c y now r (some e) f h k = absurd (cc)
timer_stops c y now r none f h k = ground arith

select_stops :
    (c : Config) (y : System) (n now : ℕ) (r : Option Error)
    → IsPatient c y n
    → y.result ≡ running
    → y.ctx_ended ≡ false
    → y.gateway.state.fatal_error ≡ none
    → (select c y (select_timer now)).result ≡ stopped r
    → c.recovery_timeout + y.gateway.state.disconnected_at ≤ now
unfolding select on_timer
select_stops c y n now r v h x f k = elim (Bool-cases (is_due y.watch.timer now)) [
  | inl due ↦ fired (is_due_at _ now due) (
      timer_stops c (record y { watch = record (y.watch) { timer = none } }) now r _ f h
        (ground arith))
  | inr early ↦ absurd (ground arith)
]
  where
    fired :
        (at : ℕ) × (y.watch.timer ≡ some at) × (at ≤ now)
        → y.watch.generation ≡ y.gateway.state.recovery_generation
        → c.recovery_timeout + y.gateway.state.disconnected_at ≤ now
    fired (at, e, l) g = omega (arith, v.patient at e g)

step_stops :
    (c : Config) (y : System) (now : ℕ) (r : Option Error)
    → y.result ≡ running
    → (step c y (select_timer now)).result ≡ stopped r
    → (select c y (select_timer now)).result ≡ stopped r
unfolding step run_select
step_stops c y now r h k = ground arith

-- `Run` does not give up on an outage before the time of the disconnect and the recovery timeout
-- together have passed, however often the session is opened again meanwhile: a round of the timer
-- ends it no earlier, if no fatal error is set and the context has not ended. Fewer than 2 ^ 64
-- events are assumed, since the generation of outages wraps there.
pub gives_up_late :
    (c : Config) (es : List Event) (y : System) (now : ℕ) (r : Option Error)
    → length es < 2 ^ 64
    → run c new_system es ≡ y
    → y.result ≡ running
    → y.ctx_ended ≡ false
    → y.gateway.state.fatal_error ≡ none
    → (step c y (select_timer now)).result ≡ stopped r
    → c.recovery_timeout + y.gateway.state.disconnected_at ≤ now
gives_up_late c es y now r small e h x f k =
    select_stops c y (length es) now r reached h x f (step_stops c y now r h k)
  where
    start : IsPatient c new_system 0
    start = record { counted = omega arith; behind = omega arith; patient = λ at h k. absurd (cc) }

    reached : IsPatient c y (length es)
    reached = subst (IsPatient c y) (omega arith) (
        subst (λ z. IsPatient c z (0 + length es)) e
          (run-IsPatient c new_system 0 es (omega arith) start))
