-- ===== src/Cli/Services/Report.antt =====
-- services.go: what `runServeServices` returns.
use gatus_qqbot.Base.{
  Bool, true, false, not, List, [], ◌∷◌, ◌++◌, Option, none, some, is_some, ◌≡◌, ◌≢◌, refl, ap,
  subst, All, All-append, if_cases, arith,
}
use gatus_qqbot.Errors.{Error, join_two}
use gatus_qqbot.Cli.Services.{
  Name, qq_gateway, http_server, ServiceResult, shutdown_error, Service, finished, after_end,
  after_timeout, after_both, after_first, Phase, starting, serving, waiting, returned, System,
  Event, become_ready, service_return, end_context, take_ready, take_result, take_context,
  take_timer, send_result, on_return, on_result_waiting, classify, on_result, receive, on_ready,
  on_context, on_timer, on_take_result, step, run,
}
use gatus_qqbot.Cli.Services.Account.{if_active_cases}
use gatus_qqbot.Strings.{Text}

-- a result that is no error to a shutdown
abbrev pub IsClean : Option Error → Type 0
IsClean e = shutdown_error e ≡ none

abbrev pub CleanEvent : Event → Type 0
CleanEvent (service_return name e) = IsClean e
CleanEvent _ = Unit

-- the phases of a shutdown that has met no error
abbrev pub is_calm : Phase → Bool
is_calm starting = false
is_calm serving = true
is_calm (waiting after_end) = false
is_calm (waiting after_timeout) = false
is_calm (waiting after_both) = true
is_calm (waiting (after_first e)) = not (is_some e)
is_calm (returned e) = not (is_some e)

pub record IsCalm (y : System) : Type 0 where
  pub calm : is_calm y.phase ≡ true
  pub ended : y.ctx_ended ≡ true
  pub clean : All (λ (r : ServiceResult). IsClean r.err) y.results

sent-IsCalm :
    (y : System) (g s : Service) (r : ServiceResult)
    → IsClean r.err
    → IsCalm y
    → IsCalm (record y { gateway = g; http = s; results = y.results ++ r ∷ [] })
sent-IsCalm y g s r k h = record {
  calm = h.calm;
  ended = h.ended;
  clean = All-append (λ (r : ServiceResult). IsClean r.err) y.results (r ∷ []) h.clean (k, tt);
}

on_return-IsCalm :
    (y : System) (name : Name) (e : Option Error)
    → IsClean e
    → IsCalm y
    → IsCalm (on_return y name e)
unfolding on_return send_result
on_return-IsCalm y qq_gateway e k h =
    if_active_cases IsCalm y.gateway _ y (λ q. sent-IsCalm y finished y.http _ k h) h
on_return-IsCalm y http_server e k h =
    if_active_cases IsCalm y.http _ y (λ q. sent-IsCalm y y.gateway finished _ k h) h

on_context-IsCalm : (y : System) (p : Phase) → y.phase ≡ p → IsCalm y → IsCalm (on_context y p)
unfolding on_context
on_context-IsCalm y starting q h = absurd (ground (arith, q, h.calm))
on_context-IsCalm y serving q h =
    if_cases IsCalm y.ctx_ended (λ c. record { calm = refl; ended = h.ended; clean = h.clean })
      (λ c. h)
on_context-IsCalm y (waiting w) q h = h
on_context-IsCalm y (returned e) q h = h

on_ready-IsCalm : (y : System) (p : Phase) → y.phase ≡ p → IsCalm y → IsCalm (on_ready y p)
unfolding on_ready
on_ready-IsCalm y starting q h = absurd (ground (arith, q, h.calm))
on_ready-IsCalm y serving q h = h
on_ready-IsCalm y (waiting w) q h = h
on_ready-IsCalm y (returned e) q h = h

on_timer-IsCalm : (y : System) (p : Phase) → y.phase ≡ p → IsCalm y → IsCalm (on_timer y p)
unfolding on_timer
on_timer-IsCalm y starting q h = absurd (ground (arith, q, h.calm))
on_timer-IsCalm y serving q h = h
on_timer-IsCalm y (waiting w) q h = h
on_timer-IsCalm y (returned e) q h = h

none_joined :
    (f e : Option Error) → not (is_some f) ≡ true → e ≡ none → not (is_some (join_two f e)) ≡ true
unfolding join_two
none_joined none e h k = rw k refl
none_joined (some x) e h k = absurd (cc)

on_result-IsCalm :
    (t : Text) (y : System) (p : Phase) (r : ServiceResult) (rs : List ServiceResult)
    → y.phase ≡ p
    → y.results ≡ r ∷ rs
    → IsCalm y
    → IsCalm (on_result t (record y { results = rs }) p r)
unfolding on_result on_result_waiting classify
on_result-IsCalm t y starting r rs q l h = absurd (ground (arith, q, h.calm))
on_result-IsCalm t y serving r rs q l h =
    let c = subst (All (λ (r : ServiceResult). IsClean r.err)) l h.clean in
    record { calm = rw (h.ended, c.0) refl; ended = h.ended; clean = c.1 }
on_result-IsCalm t y (waiting after_end) r rs q l h = absurd (ground (arith, q, h.calm))
on_result-IsCalm t y (waiting after_timeout) r rs q l h = absurd (ground (arith, q, h.calm))
on_result-IsCalm t y (waiting after_both) r rs q l h =
    let c = subst (All (λ (r : ServiceResult). IsClean r.err)) l h.clean in
    record { calm = rw c.0 refl; ended = h.ended; clean = c.1 }
on_result-IsCalm t y (waiting (after_first f)) r rs q l h =
    let c = subst (All (λ (r : ServiceResult). IsClean r.err)) l h.clean in
    record {
      calm = none_joined f _ (subst (λ p. is_calm p ≡ true) q h.calm) c.0;
      ended = h.ended;
      clean = c.1;
    }
on_result-IsCalm t y (returned e) r rs q l h =
    let c = subst (All (λ (r : ServiceResult). IsClean r.err)) l h.clean in
    record { calm = h.calm; ended = h.ended; clean = c.1 }

receive-IsCalm :
    (t : Text) (y : System) (rs : List ServiceResult)
    → y.results ≡ rs
    → IsCalm y
    → IsCalm (receive t y rs)
unfolding receive
receive-IsCalm t y [] q h = h
receive-IsCalm t y (r ∷ rs) q h = on_result-IsCalm t y y.phase r rs refl q h

on_take_result-IsCalm :
    (t : Text) (y : System) (p : Phase) → IsCalm y → IsCalm (on_take_result t y p)
unfolding on_take_result
on_take_result-IsCalm t y starting h = receive-IsCalm t y y.results refl h
on_take_result-IsCalm t y serving h = receive-IsCalm t y y.results refl h
on_take_result-IsCalm t y (waiting w) h = receive-IsCalm t y y.results refl h
on_take_result-IsCalm t y (returned e) h = h

step-IsCalm : (t : Text) (y : System) (e : Event) → CleanEvent e → IsCalm y → IsCalm (step t y e)
unfolding step
step-IsCalm t y become_ready k h = record { calm = h.calm; ended = h.ended; clean = h.clean }
step-IsCalm t y end_context k h = record { calm = h.calm; ended = refl; clean = h.clean }
step-IsCalm t y (service_return name e) k h = on_return-IsCalm y name e k h
step-IsCalm t y take_ready k h = on_ready-IsCalm y y.phase refl h
step-IsCalm t y take_result k h = on_take_result-IsCalm t y y.phase h
step-IsCalm t y take_context k h = on_context-IsCalm y y.phase refl h
step-IsCalm t y take_timer k h = on_timer-IsCalm y y.phase refl h

run-IsCalm :
    (t : Text) (y : System) (es : List Event) → All CleanEvent es → IsCalm y → IsCalm (run t y es)
unfolding run
run-IsCalm t y [] k h = h
run-IsCalm t y (e ∷ es) k h = run-IsCalm t (step t y e) es k.1 (step-IsCalm t y e k.0 h)

-- Once both services run and the context has ended, and while every service returns `nil` or
-- context.Canceled, `runServeServices` returns no error.
pub clean_shutdown :
    (t : Text) (y : System) (es : List Event) (e : Error)
    → y.phase ≡ serving
    → y.ctx_ended ≡ true
    → All (λ (s : ServiceResult). IsClean s.err) y.results
    → All CleanEvent es
    → (run t y es).phase ≢ returned (some e)
clean_shutdown t y es e q c k ks d =
    let h = run-IsCalm t y es ks (record { calm = ap is_calm q; ended = c; clean = k }) in
    let n = subst (λ p. is_calm p ≡ true) d h.calm in absurd (ground arith)
