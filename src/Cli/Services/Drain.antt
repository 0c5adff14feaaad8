-- ===== src/Cli/Services/Drain.antt =====
-- services.go: what the receives of results do to the goroutines and results under way, and that
-- none is left at the end.
use gatus_qqbot.Base.{
  suc, Bool, true, false, not, List, [], ◌∷◌, Option, none, some, is_some, ◌≡◌, refl, sym, ap,
  length, arith,
}
use gatus_qqbot.Errors.{Error, join_two}
use gatus_qqbot.Cli.Services.{
  ServiceResult, service_failure, shutdown_error, Wait, after_end, after_timeout, after_both,
  after_first, Phase, starting, serving, waiting, returned, System, Event, become_ready,
  service_return, end_context, take_ready, take_result, take_context, take_timer, new_system,
  not_ready, on_result_waiting, classify, on_result, receive, on_take_result, step, run,
}
use gatus_qqbot.Cli.Services.Account.{
  weight, expected, before_http, is_silent, IsAccountedAt, IsAccounted, at_phase,
  new_system-IsAccounted, on_ready-IsAccounted, on_context-IsAccounted, on_timer-IsAccounted,
  on_return-IsAccounted,
}
use gatus_qqbot.Strings.{Text}

join_two-eq-none :
    (e f : Option Error) → not (is_some (join_two e f)) ≡ true → not (is_some e) ≡ true
unfolding join_two
join_two-eq-none none f h = refl
join_two-eq-none (some e) none h = h
join_two-eq-none (some e) (some f) h = h

service_failure-IsSome :
    (r : ServiceResult) (o : Option Error) → r.err ≡ o → is_some (service_failure r) ≡ true
unfolding service_failure
service_failure-IsSome r none q = ground (arith, q)
service_failure-IsSome r (some e) q = ground (arith, q)

classify-eq-none : (b : Bool) (r : ServiceResult) → not (is_some (classify b r)) ≡ true → b ≡ true
unfolding classify
classify-eq-none true r h = refl
classify-eq-none false r h = absurd (ground (arith, service_failure-IsSome r r.err refl))

-- A state that has received one of its results, or has stopped.
received-IsAccounted :
    (y : System) (p p' : Phase) (rs : List ServiceResult)
    → IsAccountedAt p y
    → suc (length rs) ≡ length y.results
    → suc (expected p') ≡ expected p
    → before_http p' ≡ false
    → (is_silent p' ≡ true → y.ctx_ended ≡ true)
    → IsAccountedAt p' (record y { phase = p'; cancelled = true; results = rs })
received-IsAccounted y p p' rs s l x b n = record {
  outstanding = ground (arith, s.outstanding);
  unstarted = (λ b'. absurd (ground (arith, b, b')));
  opened = s.opened;
  stopping = (λ b. refl);
  silent = n;
}

on_result_waiting-IsAccounted :
    (t : Text) (y : System) (w : Wait) (rs : List ServiceResult) (e : Option Error)
    → IsAccountedAt (waiting w) y
    → suc (length rs) ≡ length y.results
    → IsAccounted (on_result_waiting t (record y { results = rs }) w e)
unfolding on_result_waiting
on_result_waiting-IsAccounted t y after_end rs e s l =
    received-IsAccounted y (waiting after_end) _ rs s l refl refl (λ n. s.silent refl)
on_result_waiting-IsAccounted t y after_timeout rs e s l =
    received-IsAccounted y (waiting after_timeout) _ rs s l refl refl
      (λ n. absurd (cc (join_two-eq-none (some (not_ready t)) (shutdown_error e) n)))
on_result_waiting-IsAccounted t y after_both rs e s l =
    received-IsAccounted y (waiting after_both) _ rs s l refl refl (λ n. s.silent refl)
on_result_waiting-IsAccounted t y (after_first first) rs e s l =
    received-IsAccounted y (waiting (after_first first)) _ rs s l refl refl
      (λ n. s.silent (join_two-eq-none first (shutdown_error e) n))

on_result-IsAccounted :
    (t : Text) (y : System) (p : Phase) (r : ServiceResult) (rs : List ServiceResult)
    → y.phase ≡ p
    → y.results ≡ r ∷ rs
    → IsAccounted y
    → IsAccounted (on_result t (record y { results = rs }) p r)
unfolding on_result
on_result-IsAccounted t y starting r rs q l h =
    received-IsAccounted y starting _ rs (at_phase y q h) (sym (ap length l)) refl refl
      (classify-eq-none y.ctx_ended r)
on_result-IsAccounted t y serving r rs q l h =
    received-IsAccounted y serving _ rs (at_phase y q h) (sym (ap length l)) refl refl
      (classify-eq-none y.ctx_ended r)
on_result-IsAccounted t y (waiting w) r rs q l h =
    on_result_waiting-IsAccounted t y w rs r.err (at_phase y q h) (sym (ap length l))
on_result-IsAccounted t y (returned e) r rs q l h =
    absurd (ground (arith, (at_phase y q h).outstanding, ap length l))

receive-IsAccounted :
    (t : Text) (y : System) (rs : List ServiceResult)
    → y.results ≡ rs
    → IsAccounted y
    → IsAccounted (receive t y rs)
unfolding receive
receive-IsAccounted t y [] q h = h
receive-IsAccounted t y (r ∷ rs) q h = on_result-IsAccounted t y y.phase r rs refl q h

on_take_result-IsAccounted :
    (t : Text) (y : System) (p : Phase) → IsAccounted y → IsAccounted (on_take_result t y p)
unfolding on_take_result
on_take_result-IsAccounted t y starting h = receive-IsAccounted t y y.results refl h
on_take_result-IsAccounted t y serving h = receive-IsAccounted t y y.results refl h
on_take_result-IsAccounted t y (waiting w) h = receive-IsAccounted t y y.results refl h
on_take_result-IsAccounted t y (returned e) h = h

step-IsAccounted : (t : Text) (y : System) (e : Event) → IsAccounted y → IsAccounted (step t y e)
unfolding step
step-IsAccounted t y become_ready h = record {
  outstanding = h.outstanding;
  unstarted = h.unstarted;
  opened = (λ b. refl);
  stopping = h.stopping;
  silent = h.silent;
}
step-IsAccounted t y end_context h = record {
  outstanding = h.outstanding;
  unstarted = h.unstarted;
  opened = h.opened;
  stopping = h.stopping;
  silent = (λ b. refl);
}
step-IsAccounted t y (service_return name e) h = on_return-IsAccounted y name e h
step-IsAccounted t y take_ready h = on_ready-IsAccounted y y.phase refl h
step-IsAccounted t y take_result h = on_take_result-IsAccounted t y y.phase h
step-IsAccounted t y take_context h = on_context-IsAccounted y y.phase refl h
step-IsAccounted t y take_timer h = on_timer-IsAccounted y y.phase refl h

run-IsAccounted :
    (t : Text) (y : System) (es : List Event) → IsAccounted y → IsAccounted (run t y es)
unfolding run
run-IsAccounted t y [] h = h
run-IsAccounted t y (e ∷ es) h = run-IsAccounted t (step t y e) es (step-IsAccounted t y e h)

-- In every reachable state the goroutines at work and the results in the channel are as many as the
-- phase has still to receive; the HTTP server has not been started before the gateway was ready,
-- nor at all where only the gateway's result is received; `cancel` has been called once a phase has
-- only to receive; and a phase leads to `nil` only if the context has ended.
pub reachable-IsAccounted : (t : Text) (es : List Event) → IsAccounted (run t new_system es)
reachable-IsAccounted t es = run-IsAccounted t new_system es new_system-IsAccounted

nothing_outstanding :
    (y : System) (r : Option Error)
    → IsAccountedAt (returned r) y
    → (weight y.gateway ≡ 0) × (weight y.http ≡ 0) × (length y.results ≡ 0)
nothing_outstanding y r h =
    (omega (arith, h.outstanding), omega (arith, h.outstanding), omega (arith, h.outstanding))

-- When `runServeServices` has returned, in whatever way, no service that it has started is still at
-- work, no result is left in the channel, and the context of the services has been cancelled; and it
-- returns `nil` only if its own context has ended.
pub returned_clean :
    (t : Text) (es : List Event) (r : Option Error)
    → (run t new_system es).phase ≡ returned r
    → let y = run t new_system es in
      (weight y.gateway ≡ 0)
      × (weight y.http ≡ 0)
      × (length y.results ≡ 0)
      × (y.cancelled ≡ true)
      × (r ≡ none → y.ctx_ended ≡ true)
returned_clean t es r q =
    let y = run t new_system es in
    let h = at_phase y q (reachable-IsAccounted t es) in
    let (a, b, c) = nothing_outstanding y r h in
    (a, b, c, h.stopping refl, λ n. h.silent (ap (λ x. not (is_some x)) n))
