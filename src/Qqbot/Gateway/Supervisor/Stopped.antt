-- ===== src/Qqbot/Gateway/Supervisor/Stopped.antt =====
-- gateway.go: the event at which the loop of `Run` returns.
use gatus_qqbot.Base.{List, [], ◌∷◌, ◌++◌, Option, ◌≡◌, refl, sym, ap, ◌∙◌}
use gatus_qqbot.Errors.{Error}
use gatus_qqbot.Qqbot.Gateway.Supervisor.{
  Config, Result, running, stopped, System, Event, session_start, session_fail, ready_event,
  other_event, end_context, select_context, select_manager, select_state_changed, select_timer,
  run_select, step, run,
}

stays_stopped :
    (c : Config) (y : System) (e : Event) (r : Option Error)
    → y.result ≡ stopped r
    → (step c y e).result ≡ stopped r
unfolding step run_select
stays_stopped c y select_context r h = ap (λ s. (run_select c y select_context s).result) h ∙ h
stays_stopped c y (select_manager m) r h =
    ap (λ s. (run_select c y (select_manager m) s).result) h ∙ h
stays_stopped c y (select_state_changed now) r h =
    ap (λ s. (run_select c y (select_state_changed now) s).result) h ∙ h
stays_stopped c y (select_timer now) r h =
    ap (λ s. (run_select c y (select_timer now) s).result) h ∙ h
stays_stopped c y (session_start identity s) r h = h
stays_stopped c y (session_fail now identity x a d) r h = h
stays_stopped c y (ready_event p d) r h = h
stays_stopped c y (other_event p) r h = h
stays_stopped c y end_context r h = h

run_stopped :
    (c : Config) (y : System) (es : List Event) (r : Option Error)
    → y.result ≡ stopped r
    → (run c y es).result ≡ stopped r
unfolding run
run_stopped c y [] r h = h
run_stopped c y (e ∷ es) r h = run_stopped c (step c y e) es r (stays_stopped c y e r h)

-- the event at which a run of the loop stops
abbrev pub IsStop : Config → System → List Event → Option Error → Type 0
IsStop c y es r =
    (before : List Event) × (e : Event) × (after : List Event) × (es ≡ before ++ e ∷ after)
    × ((run c y before).result ≡ running)
    × ((step c (run c y before) e).result ≡ stopped r)

module _ (c : Config) (r : Option Error) where
  IsStop-cases :
      (y : System) (e : Event) (es : List Event) (s : Result)
      → (step c y e).result ≡ s
      → y.result ≡ running
      → (run c (step c y e) es).result ≡ stopped r
      → ((step c y e).result ≡ running → IsStop c (step c y e) es r)
      → IsStop c y (e ∷ es) r
  unfolding run
  IsStop-cases y e es running q h d ih =
      let (before, x, after, k, g, s) = ih q in (e ∷ before, x, after, ap (◌∷◌ e) k, g, s)
  IsStop-cases y e es (stopped r') q h d ih =
      ([], e, es, refl, h, q ∙ (sym (run_stopped c (step c y e) es r' q) ∙ d))

  pub loop-IsStop :
      (y : System) (es : List Event)
      → y.result ≡ running
      → (run c y es).result ≡ stopped r
      → IsStop c y es r
  unfolding run
  loop-IsStop y [] h d = absurd (cc)
  loop-IsStop y (e ∷ es) h d =
      IsStop-cases y e es (step c y e).result refl h d (λ q. loop-IsStop (step c y e) es q d)
