-- ===== src/Cli/Services/Ends.antt =====
-- services.go: that the receives end.
use gatus_qqbot.Base.{List, [], ◌∷◌, ◌++◌, Option, some, ◌≡◌, refl, ap, length, arith}
use gatus_qqbot.Errors.{Error, join_two}
use gatus_qqbot.Cli.Services.{
  shutdown_error, Wait, after_end, after_timeout, after_both, after_first, Phase, starting, serving,
  waiting, returned, System, Event, take_result, new_system, not_ready, on_result_waiting, classify,
  on_result, receive, on_take_result, step, run,
}
use gatus_qqbot.Cli.Services.Account.{weight, expected, at_phase}
use gatus_qqbot.Cli.Services.Drain.{reachable-IsAccounted}
use gatus_qqbot.Strings.{Text}

length-eq-zero : {A : Type 0} (xs : List A) → length xs ≡ 0 → xs ≡ []
length-eq-zero [] h = refl
length-eq-zero (x ∷ xs) h = absurd (omega (arith, h))

length-eq-one : {A : Type 0} (xs : List A) → length xs ≡ 1 → (x : A) × (xs ≡ x ∷ [])
length-eq-one [] h = absurd (omega (arith, h))
length-eq-one (x ∷ xs) h = (x, ap (◌∷◌ x) (length-eq-zero xs (omega (arith, h))))

length-eq-two : {A : Type 0} (xs : List A) → length xs ≡ 2 → (x : A) × (y : A) × (xs ≡ x ∷ y ∷ [])
length-eq-two [] h = absurd (omega (arith, h))
length-eq-two (x ∷ xs) h = let (y, q) = length-eq-one xs (omega (arith, h)) in (x, y, ap (◌∷◌ x) q)

-- `runServeServices` returns.
abbrev pub Returns : Text → System → Type 0
Returns t y = (r : Option Error) × ((run t y (take_result ∷ take_result ∷ [])).phase ≡ returned r)

waiting_ends :
    (t : Text) (y : System) (w : Wait)
    → y.phase ≡ waiting w
    → length y.results ≡ expected (waiting w)
    → Returns t y
unfolding run step on_take_result receive on_result on_result_waiting
waiting_ends t y after_end q l =
    let (r, h) = length-eq-one y.results l in (shutdown_error r.err, rw (q, h) refl)
waiting_ends t y after_timeout q l =
    let (r, h) = length-eq-one y.results l in
    (join_two (some (not_ready t)) (shutdown_error r.err), rw (q, h) refl)
waiting_ends t y after_both q l =
    let (r, s, h) = length-eq-two y.results l in
    (join_two (shutdown_error r.err) (shutdown_error s.err), rw (q, h) refl)
waiting_ends t y (after_first f) q l =
    let (r, h) = length-eq-one y.results l in (join_two f (shutdown_error r.err), rw (q, h) refl)

-- Wherever `runServeServices` has only to receive, it is not blocked once the services have returned:
-- two receives are enough for it to return.
pub no_block :
    (t : Text) (es : List Event) (w : Wait)
    → let y = run t new_system es in
      y.phase ≡ waiting w → weight y.gateway ≡ 0 → weight y.http ≡ 0 → Returns t y
no_block t es w q g s =
    let y = run t new_system es in
    let h = at_phase y q (reachable-IsAccounted t es) in
    waiting_ends t y w q (omega (arith, h.outstanding, g, s))

phase_ends :
    (t : Text) (y : System) (p : Phase) → y.phase ≡ p → length y.results ≡ expected p → Returns t y
unfolding run step on_take_result receive on_result on_result_waiting
phase_ends t y starting q l =
    let (r, h) = length-eq-one y.results l in (classify y.ctx_ended r, rw (q, h) refl)
phase_ends t y serving q l =
    let (r, s, h) = length-eq-two y.results l in
    (join_two (classify y.ctx_ended r) (shutdown_error s.err), rw (q, h) refl)
phase_ends t y (waiting w) q l = waiting_ends t y w q l
phase_ends t y (returned e) q l = (e, rw q refl)

-- Once no service is at work, two receives are enough to return from any phase.
pub services_end :
    (t : Text) (es : List Event)
    → let y = run t new_system es in weight y.gateway ≡ 0 → weight y.http ≡ 0 → Returns t y
services_end t es g s =
    let y = run t new_system es in
    let h = reachable-IsAccounted t es in
    phase_ends t y y.phase refl (omega (arith, h.outstanding, g, s))

pub run-append :
    (t : Text) (y : System) (es fs : List Event) → run t y (es ++ fs) ≡ run t (run t y es) fs
unfolding run
run-append t y [] fs = refl
run-append t y (e ∷ es) fs = run-append t (step t y e) es fs
