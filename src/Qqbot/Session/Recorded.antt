-- ===== src/Qqbot/Session/Recorded.antt =====
-- gateway_session.go with gateway.go: what `Start` leaves on record in the gateway that observes it,
-- and when it asks for a session again.
use gatus_qqbot.Base.{
  ℕ, suc, Bool, true, false, List, [], ◌∷◌, ◌++◌, Option, none, some, ◌⊎◌, inl, inr, ◌≡◌, refl, sym,
  ap, subst, get_elem?,
}
use gatus_qqbot.Errors.{Error, message}
use gatus_qqbot.Qqbot.Gateway.{ResumableSession, Gateway}
use gatus_qqbot.Qqbot.Websocket.{new_websocket_attempt}
use gatus_qqbot.Qqbot.Session.{
  Codes, Attempt, Trace, Stop, trying, stopped, Progress, attempt_error, start_from, Request,
  interval_of, first_resume, refused, start,
}
use gatus_qqbot.Qqbot.Session.Attempts.{trace_of, failure, running_state, loop_cases}
use gatus_qqbot.Qqbot.Session.Observed.{
  Handled, gateway_observer, running_state-IsRunning, IsRecorded, failure-IsRecorded,
}
use gatus_qqbot.Qqbot.Session.Supervise.{start_cases}
use gatus_qqbot.Strings.{codes}

-- the error of an attempt, where `Listening` may have returned `nil`
abbrev pub IsError : Option Error → Error → Type 0
IsError (some e) x = x ≡ e
IsError none x = x ≡ message (codes "BotGo WebSocket listener stopped unexpectedly")

-- The last of the attempts has ended with the error `e`, and this is the outage that the gateway
-- knows of.
abbrev pub IsDown : List Trace → Error → Gateway → Type 0
IsDown traces e g =
    ((ts : List Trace) × (t : Trace) × (traces ≡ ts ++ t ∷ []) × IsError t.run.err e)
    × (g.state.current_session_open ≡ false)
    × (g.state.recovering ≡ true)
    × (g.state.last_error ≡ some e)

-- no client can be made at one of the attempts
abbrev pub HasFailedClient : Error → List (Attempt (List Handled)) → Type 0
HasFailedClient e attempts =
    (i : ℕ) × (a : Attempt (List Handled)) × (get_elem? attempts i ≡ some a)
    × (new_websocket_attempt a.creation ≡ inl e)

-- What the state of the gateway says about the attempts made and the result of the loop, from the
-- state `g` on.
abbrev pub IsSettled :
    Codes → Gateway → List (Attempt (List Handled)) → List Trace → Gateway → Stop → Type 0
IsSettled k g attempts traces g' trying =
    (g'.state.fatal_error ≡ none)
    × (((attempts ≡ []) × (traces ≡ []) × (g' ≡ g)) ⊎ ((e : Error) × IsDown traces e g'))
IsSettled k g attempts traces g' (stopped none) = g'.state.fatal_error ≡ none
IsSettled k g attempts traces g' (stopped (some e)) =
    (IsDown traces e g' × (g'.state.fatal_error ≡ some e) × (k.can_not_identify e ≡ true))
    ⊎ ((g'.state.fatal_error ≡ none) × HasFailedClient e attempts)

attempt_error-IsError : (o : Option Error) → IsError o (attempt_error o)
unfolding attempt_error
attempt_error-IsError none = refl
attempt_error-IsError (some e) = refl

recorded-IsDown :
    (k : Codes) (t : Trace) (e : Error) (f : Gateway × ResumableSession)
    → e ≡ attempt_error t.run.err
    → IsRecorded k e f
    → IsDown (t ∷ []) e f.0
recorded-IsDown k t e f q r =
    let own = subst (IsError t.run.err) (sym q) (attempt_error-IsError t.run.err) in
    (([], t, refl, own), r.0, r.1, r.2)

later-IsDown :
    (t : Trace) (ts : List Trace) (e : Error) (g : Gateway) → IsDown ts e g → IsDown (t ∷ ts) e g
later-IsDown t ts e g ((us, u, q, h), o, r, l) = ((t ∷ us, u, ap (◌∷◌ t) q, h), o, r, l)

module _ (k : Codes) (interval : ℕ) where
  further :
      (g g₁ g' : Gateway) (a : Attempt (List Handled)) (rest : List (Attempt (List Handled)))
      (t : Trace) (ts : List Trace) (e₁ : Error) (r : Stop)
      → IsDown (t ∷ []) e₁ g₁
      → IsSettled k g₁ rest ts g' r
      → IsSettled k g (a ∷ rest) (t ∷ ts) g' r
  further g g₁ g' a rest t ts e₁ trying d (h, inl (_, n, q)) = (
    h,
    inr (e₁, subst (λ us. IsDown (t ∷ us) e₁ g') (sym n) (subst (IsDown (t ∷ []) e₁) (sym q) d)),
  )
  further g g₁ g' a rest t ts e₁ trying d (h, inr (e, d')) = (h, inr (e, later-IsDown t ts e g' d'))
  further g g₁ g' a rest t ts e₁ (stopped none) d h = h
  further g g₁ g' a rest t ts e₁ (stopped (some e)) d (inl (d', h, n)) =
      inl (later-IsDown t ts e g' d', h, n)
  further g g₁ g' a rest t ts e₁ (stopped (some e)) d (inr (h, (i, b, at, n))) =
      inr (h, (suc i, b, at, n))

  pub start_from-IsSettled :
      (delay : ℕ) (resume : ResumableSession) (g : Gateway)
      (attempts : List (Attempt (List Handled)))
      → g.state.fatal_error ≡ none
      → let p = start_from gateway_observer k interval delay resume g attempts in
        IsSettled k g attempts p.traces p.state p.result
  start_from-IsSettled delay resume g [] h = unfold start_from in (h, inl (refl, refl, refl))
  start_from-IsSettled delay resume g (a ∷ rest) h =
      loop_cases gateway_observer k interval delay resume g a rest
        (λ (p : Progress Gateway). IsSettled k g (a ∷ rest) p.traces p.state p.result) (λ i. h)
        (λ e n. inr (h, (0, a, refl, n)))
        (λ identity c n.
          let up = running_state-IsRunning k resume g a identity h in
          (
            λ d. up.2,
            λ e q.
                let g₁ = running_state gateway_observer k resume g a identity in
                let rec = failure-IsRecorded k g₁ a identity e up in
                let down =
                  recorded-IsDown k (trace_of gateway_observer k delay resume c) e
                    (failure gateway_observer k g₁ a identity e) q rec in
                (
                  λ f. inl (down, rec.3 f, f),
                  λ f.
                      further g _ _ a rest _ _ e _ down
                        (start_from-IsSettled interval _ _ rest (rec.4 f)),
                ),
          ))

-- The attempt behind an error that forbids Resume, and so the first one if `fresh` holds, asks for a
-- session without ID and sequence number.
abbrev pub IsFresh : Codes → Bool → List Trace → Type 0
IsFresh k fresh [] = Unit
IsFresh k fresh (t ∷ ts) =
    (fresh ≡ true → (t.asked.id ≡ []) × (t.asked.last_seq ≡ 0))
    × IsFresh k (k.can_not_resume (attempt_error t.run.err)) ts

module _ (k : Codes) (interval : ℕ) where
  pub start_from-IsFresh :
      (delay : ℕ) (resume : ResumableSession) (g : Gateway)
      (attempts : List (Attempt (List Handled))) (fresh : Bool)
      → g.state.fatal_error ≡ none
      → (fresh ≡ true → (resume.id ≡ []) × (resume.last_seq ≡ 0))
      → IsFresh k fresh (start_from gateway_observer k interval delay resume g attempts).traces
  start_from-IsFresh delay resume g [] fresh h f = unfold start_from in tt
  start_from-IsFresh delay resume g (a ∷ rest) fresh h f =
      loop_cases gateway_observer k interval delay resume g a rest
        (λ (p : Progress Gateway). IsFresh k fresh p.traces) (λ i. tt) (λ e n. tt)
        (λ identity c n.
          let up = running_state-IsRunning k resume g a identity h in
          (
            λ d. (f, tt),
            λ e q.
                let g₁ = running_state gateway_observer k resume g a identity in
                let rec = failure-IsRecorded k g₁ a identity e up in
                (
                  λ m. (f, tt),
                  λ m. (
                    f,
                    start_from-IsFresh interval _ _ rest _ (rec.4 m)
                        (λ r. rec.5 (subst (λ x. k.can_not_resume x ≡ true) (sym q) r)),
                  ),
                ),
          ))

module _ (k : Codes) (q : Request) (g : Gateway) (attempts : List (Attempt (List Handled))) where
  abbrev pub Settled : Progress Gateway → Type 0
  Settled p =
      IsSettled k g attempts p.traces p.state p.result
      ⊎ ((e : Error) × (refused q ≡ some e) × (p.result ≡ stopped (some e)) × (p.state ≡ g))

  -- The gateway as the observer of its sessions knows what becomes of `Start`, if it knows no fatal
  -- error before it. While `Start` goes on, no error is fatal, and behind the first failed attempt
  -- the session is not open, the gateway is recovering and the last error that it has on record is
  -- the one that the last attempt ended with, or that its listener stopped if `Listening` returned
  -- `nil`. If `Start` returns `nil`, no error is fatal. If it returns an error, then that is the
  -- error of the last attempt and forbids Identify, and the gateway has it on record in this way
  -- and as the fatal error; or no error is fatal and at one of the attempts no
  -- client could be made, with that error; or one of the checks of `Start` failed with it and the
  -- state of the gateway is as it was.
  pub start-Settled : g.state.fatal_error ≡ none → Settled (start gateway_observer k q g attempts)
  start-Settled h =
      start_cases gateway_observer k q g attempts Settled (λ e. inl h)
        (λ e r. inr (e, r, refl, refl))
        (λ r. inl (start_from-IsSettled k (interval_of q) 0 first_resume g attempts h))

  -- With the gateway as the observer, and no fatal error known to it before, the first attempt of
  -- `Start` and each attempt behind an error that forbids Resume asks for a session without ID and
  -- sequence number, whatever the event handlers have stored meanwhile.
  pub start-IsFresh :
      g.state.fatal_error ≡ none → IsFresh k true (start gateway_observer k q g attempts).traces
  start-IsFresh h =
      start_cases gateway_observer k q g attempts
        (λ (p : Progress Gateway). IsFresh k true p.traces) (λ e. tt) (λ e r. tt)
        (λ r.
          start_from-IsFresh k (interval_of q) 0 first_resume g attempts true h (λ _. (refl, refl)))
