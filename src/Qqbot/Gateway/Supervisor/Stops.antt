-- ===== src/Qqbot/Gateway/Supervisor/Stops.antt =====
-- gateway.go: why the loop of `Run` returns, and what a fatal error stops.
use gatus_qqbot.Base.{
  ℕ, true, false, ◌&&◌, List, Option, none, some, ◌≡◌, ◌⊎◌, refl, subst, ◌∙◌, arith, inl, inr, ◌==◌,
  is_some, not, if_cases,
}
use gatus_qqbot.Errors.{Error}
use gatus_qqbot.Qqbot.Gateway.{
  State, Gateway, session_started, is_current, session_failed, accept_event, on_ready,
  observe_event,
}
use gatus_qqbot.Qqbot.Gateway.Invariant.{IsSound}
use gatus_qqbot.Qqbot.Gateway.Supervisor.{
  Config, Result, running, stopped, System, Event, session_start, session_fail, ready_event,
  other_event, end_context, select_context, select_manager, select_state_changed, select_timer,
  new_system, cannot_reconnect, not_recovered, manager_result, on_manager, rearmed, after_change,
  on_state_changed, after_timer, on_timer, is_due, select, run_select, step, run,
}
use gatus_qqbot.Qqbot.Gateway.Supervisor.Wakeup.{IsLive, reachable-IsLive}

-- The reasons for `Run` to return `r` from the state `y` at the event `e`.
abbrev pub IsReason : Config → System → Event → Option Error → Type 0
IsReason c y e none = y.ctx_ended ≡ true
IsReason c y e (some x) =
    (y.ctx_ended ≡ false)
    × (((f : Error) × (y.gateway.state.fatal_error ≡ some f) × (x ≡ cannot_reconnect f))
        ⊎ ((m : Option Error) × (e ≡ select_manager m)
            × (y.gateway.state.fatal_error ≡ none)
            × (x ≡ manager_result none m))
        ⊎ ((l : Error) × (now : ℕ) × (e ≡ select_timer now)
            × (y.gateway.state.fatal_error ≡ none)
            × (y.gateway.state.recovering ≡ true)
            × (y.gateway.state.last_error ≡ some l)
            × (x ≡ not_recovered c (some l))))

abbrev Explained : Config → System → Event → Result → Type 0
Explained c y e s = (r : Option Error) → s ≡ stopped r → IsReason c y e r

abbrev ExplainedAt : Config → System → Event → System → Type 0
ExplainedAt c y e z = Explained c y e z.result

still_running : (c : Config) (y : System) (e : Event) {s : Result} → s ≡ running → Explained c y e s
still_running c y e h = λ r k. absurd (cc)

by_context :
    (c : Config) (y : System) (e : Event) → y.ctx_ended ≡ true → Explained c y e (stopped none)
by_context c y e x none q = x
by_context c y e x (some r) q = absurd (cc)

by_fatal :
    (c : Config) (y : System) (e : Event) (f : Error)
    → y.ctx_ended ≡ false
    → y.gateway.state.fatal_error ≡ some f
    → Explained c y e (stopped (some (cannot_reconnect f)))
by_fatal c y e f x g none q = absurd (cc)
by_fatal c y e f x g (some r) q = (x, inl (f, g, ground arith))

by_manager :
    (c : Config) (y : System) (m : Option Error) (fatal : Option Error)
    → y.ctx_ended ≡ false
    → y.gateway.state.fatal_error ≡ fatal
    → Explained c y (select_manager m) (stopped (some (manager_result fatal m)))
unfolding manager_result
by_manager c y m fatal x f none q = absurd (cc)
by_manager c y m (some f) x g (some r) q = (x, inl (f, g, ground arith))
by_manager c y m none x g (some r) q = (x, inr (inl (m, refl, g, ground arith)))

-- `w` is `y` with its token or its timer taken.
after_change_explained :
    (c : Config) (y w : System) (e : Event) (now : ℕ) (fatal : Option Error)
    → y.ctx_ended ≡ false
    → y.gateway.state.fatal_error ≡ fatal
    → w.result ≡ running
    → ExplainedAt c y e (after_change c w now fatal)
unfolding after_change rearmed
after_change_explained c y w e now (some f) x g h = by_fatal c y e f x g
after_change_explained c y w e now none x g h =
    if_cases (ExplainedAt c y e) w.gateway.state.recovering
      (λ _.
        if_cases (ExplainedAt c y e)
          (is_some w.watch.timer && (w.watch.generation == w.gateway.state.recovery_generation))
          (λ _. still_running c y e h) (λ _. still_running c y e h))
      (λ _. still_running c y e h)

gave_up :
    (c : Config) (y : System) (now : ℕ) (last : Option Error)
    → y.ctx_ended ≡ false
    → y.gateway.state.fatal_error ≡ none
    → y.gateway.state.recovering ≡ true
    → y.gateway.state.last_error ≡ last
    → is_some last ≡ true
    → (r : Option Error) → stopped (some (not_recovered c last)) ≡ stopped r
    → IsReason c y (select_timer now) r
gave_up c y now none x f b l s r q = absurd (cc)
gave_up c y now (some l) x f b e s none q = absurd (cc)
gave_up c y now (some l) x f b e s (some r) q = (x, inr (inr (l, now, refl, f, b, e, ground arith)))

after_timer_explained :
    (c : Config) (y : System) (now : ℕ) (fatal : Option Error)
    → IsSound y.gateway.state
    → y.ctx_ended ≡ false
    → y.gateway.state.fatal_error ≡ fatal
    → y.result ≡ running
    → ExplainedAt c y
        (select_timer now)
        (after_timer c (record y { watch = record (y.watch) { timer = none } }) now fatal)
unfolding after_timer
after_timer_explained c y now (some f) v x g h = by_fatal c y (select_timer now) f x g
after_timer_explained c y now none v x g h =
    if_cases (ExplainedAt c y (select_timer now)) (not y.gateway.state.recovering)
      (λ _. still_running c y (select_timer now) h)
      (λ b.
        if_cases (ExplainedAt c y (select_timer now))
          (y.watch.generation == y.gateway.state.recovery_generation)
          (λ _. gave_up c y now _ x g (ground arith) refl (v.has_error ∙ ground arith))
          (λ _. still_running c y (select_timer now) h))

select_explained :
    (c : Config) (y : System) (e : Event)
    → IsSound y.gateway.state
    → y.result ≡ running
    → ExplainedAt c y e (select c y e)
unfolding select on_manager on_state_changed on_timer
select_explained c y select_context v h =
    if_cases (ExplainedAt c y select_context) y.ctx_ended (λ x. by_context c y select_context x)
      (λ _. still_running c y select_context h)
select_explained c y (select_manager m) v h =
    if_cases (ExplainedAt c y (select_manager m)) y.ctx_ended
      (λ x. by_context c y (select_manager m) x) (λ x. by_manager c y m _ x refl)
select_explained c y (select_state_changed now) v h =
    if_cases (ExplainedAt c y (select_state_changed now)) y.gateway.state_changed
      (λ _.
        if_cases (ExplainedAt c y (select_state_changed now)) y.ctx_ended
          (λ x. by_context c y (select_state_changed now) x)
          (λ x. after_change_explained c y _ (select_state_changed now) now _ x refl h))
      (λ _. still_running c y (select_state_changed now) h)
select_explained c y (select_timer now) v h =
    if_cases (ExplainedAt c y (select_timer now)) (is_due y.watch.timer now)
      (λ _.
        if_cases (ExplainedAt c y (select_timer now)) y.ctx_ended
          (λ x. by_context c y (select_timer now) x)
          (λ x. after_timer_explained c y now _ v x refl h))
      (λ _. still_running c y (select_timer now) h)
select_explained c y e v h = still_running c y e h

run_select_explained :
    (c : Config) (y : System) (e : Event) (s : Result)
    → s ≡ running
    → IsSound y.gateway.state
    → y.result ≡ running
    → ExplainedAt c y e (run_select c y e s)
unfolding run_select
run_select_explained c y e running k v h = select_explained c y e v h
run_select_explained c y e (stopped r) k v h = absurd (cc)

step_explained :
    (c : Config) (y : System) (e : Event)
    → IsSound y.gateway.state
    → y.result ≡ running
    → ExplainedAt c y e (step c y e)
unfolding step
step_explained c y select_context v h = run_select_explained c y select_context _ h v h
step_explained c y (select_manager m) v h = run_select_explained c y (select_manager m) _ h v h
step_explained c y (select_state_changed now) v h =
    run_select_explained c y (select_state_changed now) _ h v h
step_explained c y (select_timer now) v h = run_select_explained c y (select_timer now) _ h v h
step_explained c y (session_start identity r) v h = still_running c y (session_start identity r) h
step_explained c y (session_fail now identity x a b) v h =
    still_running c y (session_fail now identity x a b) h
step_explained c y (ready_event p d) v h = still_running c y (ready_event p d) h
step_explained c y (other_event p) v h = still_running c y (other_event p) h
step_explained c y end_context v h = still_running c y end_context h

-- The loop of `Run` returns nil only when its context has ended. It returns an error only while the context has
-- not ended, and then for one of three reasons: a fatal error; the end of the session manager with
-- no fatal error set; or the timer of an outage that lasts, with the error of that outage.
pub stops_for-IsReason :
    (c : Config) (es : List Event) (y : System) (e : Event) (r : Option Error)
    → run c new_system es ≡ y
    → y.result ≡ running
    → (step c y e).result ≡ stopped r
    → IsReason c y e r
stops_for-IsReason c es y e r k h q =
    step_explained c y e (subst IsLive k (reachable-IsLive c es) h).sound h r q

-- The events that may change the connection state.
abbrev pub session_state : Gateway → Event → State
session_state g (session_start identity r) = (session_started g identity r).state
session_state g (session_fail now identity e a b) =
    (session_failed g now identity e a b).gateway.state
session_state g (ready_event p d) = (on_ready g p d).gateway.state
session_state g (other_event p) = (observe_event g p).gateway.state
session_state g e = g.state

-- After a fatal error the connection state never changes again, whatever the manager and the
-- handlers still report.
pub fatal_is_final :
    (g : Gateway) (e : Event)
    → IsSound g.state
    → is_some g.state.fatal_error ≡ true
    → session_state g e ≡ g.state
fatal_is_final g (session_start identity r) v f = unfold session_started in (ground arith)
fatal_is_final g (session_fail now identity x a b) v f =
    unfold session_failed is_current in (ground (arith, v.fatal_closed f))
fatal_is_final g (ready_event none d) v f = unfold on_ready in refl
fatal_is_final g (ready_event (some p) d) v f =
    unfold on_ready accept_event in (ground (arith, v.fatal_closed f))
fatal_is_final g (other_event none) v f = unfold observe_event in refl
fatal_is_final g (other_event (some p)) v f =
    unfold observe_event accept_event in (ground (arith, v.fatal_closed f))
fatal_is_final g _ v f = refl
