-- ===== src/Qqbot/Gateway/Supervisor/Ending.antt =====
-- gateway.go: the loop of `Run` behind the end of its context.
use gatus_qqbot.Base.{
  true, false, List, [], ◌∷◌, ◌++◌, Option, none, ◌≡◌, ◌⊎◌, inl, inr, refl, if◌then◌else◌, if_cases,
  arith,
}
use gatus_qqbot.Errors.{Error}
use gatus_qqbot.Qqbot.Gateway.Supervisor.{
  Config, Result, running, stopped, System, Event, session_start, session_fail, ready_event,
  other_event, end_context, select_context, select_manager, select_state_changed, select_timer,
  stop_with, set_watch, on_manager, on_state_changed, on_timer, is_due, select, run_select, step,
  run,
}

-- The context has ended, and `Run` goes on or has returned nil.
abbrev pub IsEnding : System → Type 0
IsEnding y = (y.ctx_ended ≡ true) × ((y.result ≡ running) ⊎ (y.result ≡ stopped none))

-- a round of `select` that sees the end of the context
if_ended :
    (y z : System) → y.ctx_ended ≡ true → IsEnding (if y.ctx_ended then stop_with y none else z)
if_ended y z h =
    if_cases IsEnding y.ctx_ended (λ b. (h, inr refl)) (λ b. absurd (ground (arith, h, b)))

on_manager-IsEnding :
    (y : System) (m : Option Error) → y.ctx_ended ≡ true → IsEnding (on_manager y m)
unfolding on_manager
on_manager-IsEnding y m h = if_ended y _ h

select-IsEnding :
    (c : Config) (y : System) (e : Event)
    → y.ctx_ended ≡ true
    → y.result ≡ running
    → IsEnding (select c y e)
unfolding select on_state_changed on_timer
select-IsEnding c y select_context h k = if_ended y y h
select-IsEnding c y (select_manager m) h k = on_manager-IsEnding y m h
select-IsEnding c y (select_state_changed now) h k =
    if_cases IsEnding y.gateway.state_changed
      (λ b. if_ended (record y { gateway = record (y.gateway) { state_changed = false } }) _ h)
      (λ b. (h, inl k))
select-IsEnding c y (select_timer now) h k =
    if_cases IsEnding (is_due y.watch.timer now)
      (λ b. if_ended (set_watch y (record (y.watch) { timer = none })) _ h) (λ b. (h, inl k))
select-IsEnding c y e h k = (h, inl k)

run_select-IsEnding :
    (c : Config) (y : System) (e : Event) (s : Result)
    → y.result ≡ s
    → IsEnding y
    → IsEnding (run_select c y e s)
unfolding run_select
run_select-IsEnding c y e running k h = select-IsEnding c y e h.0 k
run_select-IsEnding c y e (stopped r) k h = h

step-IsEnding : (c : Config) (y : System) (e : Event) → IsEnding y → IsEnding (step c y e)
unfolding step
step-IsEnding c y (session_start identity r) h = h
step-IsEnding c y (session_fail now identity x a b) h = h
step-IsEnding c y (ready_event p d) h = h
step-IsEnding c y (other_event p) h = h
step-IsEnding c y end_context h = (refl, h.1)
step-IsEnding c y select_context h = run_select-IsEnding c y select_context y.result refl h
step-IsEnding c y (select_manager m) h = run_select-IsEnding c y (select_manager m) y.result refl h
step-IsEnding c y (select_state_changed now) h =
    run_select-IsEnding c y (select_state_changed now) y.result refl h
step-IsEnding c y (select_timer now) h = run_select-IsEnding c y (select_timer now) y.result refl h

pub run-IsEnding : (c : Config) (y : System) (es : List Event) → IsEnding y → IsEnding (run c y es)
unfolding run
run-IsEnding c y [] h = h
run-IsEnding c y (e ∷ es) h = run-IsEnding c (step c y e) es (step-IsEnding c y e h)

pub run-append :
    (c : Config) (y : System) (es fs : List Event) → run c y (es ++ fs) ≡ run c (run c y es) fs
unfolding run
run-append c y [] fs = refl
run-append c y (e ∷ es) fs = run-append c (step c y e) es fs

stopped-none : (s : Result) (r : Option Error) → s ≡ stopped none → s ≡ stopped r → r ≡ none
stopped-none s r h k = cc

-- What `Run` returns behind the end of its context is nil.
pub IsEnding-none : (y : System) (r : Option Error) → IsEnding y → y.result ≡ stopped r → r ≡ none
IsEnding-none y r (h, inl k) q = absurd (cc)
IsEnding-none y r (h, inr k) q = stopped-none y.result r k q
