-- ===== src/Qqbot/Session/Supervise.antt =====
-- gateway_session.go: what the loop of `Start` makes of a script of attempts.
use gatus_qqbot.Base.{
  ℕ, suc, ◌<◌, Bool, true, false, not, List, [], ◌∷◌, ◌++◌, Option, none, some, ◌⊎◌, inl, inr, ◌≡◌,
  refl, sym, ap, subst, All, take, length, get_elem?, if_cases,
}
use gatus_qqbot.Errors.{Error}
use gatus_qqbot.Qqbot.Gateway.{ResumableSession}
use gatus_qqbot.Qqbot.Websocket.{
  Client, ClientCall, connect_call, close_call, Run, new_websocket_attempt,
}
use gatus_qqbot.Qqbot.Session.{
  Observer, Codes, Attempt, Trace, trying, stopped, Progress, start_from, Request, interval_of,
  first_resume, refused, start_checked, start,
}
use gatus_qqbot.Qqbot.Websocket.Protocol.{
  IsAttempt, whole, overtaken, run_websocket_attempt-IsAttempt,
}
use gatus_qqbot.Qqbot.Session.Attempts.{trace_of, loop_cases}
use gatus_qqbot.Strings.{is_empty}

-- The calls are Connect alone; or Connect, the handshake and Listening; or these with Close before
-- Listening; or some of the first of them and Close.
abbrev pub IsProtocol : Bool → List ClientCall → Type 0
IsProtocol resume calls =
    (calls ≡ connect_call ∷ [])
    ⊎ (calls ≡ whole resume)
    ⊎ (calls ≡ overtaken resume)
    ⊎ ((n : ℕ) × (0 < n) × (calls ≡ take n (whole resume) ++ close_call ∷ []))

attempt-IsProtocol :
    (c : Client) (resume : Bool) (r : Run) → IsAttempt c resume r → IsProtocol resume r.calls
attempt-IsProtocol c resume r (inl (e, h, q)) = inl (ap (λ x. x.calls) q)
attempt-IsProtocol c resume r (inr (inl (o, h, q))) = inr (inl (ap (λ x. x.calls) q))
attempt-IsProtocol c resume r (inr (inr (inl (e, h, q)))) = inr (inr (inl (ap (λ x. x.calls) q)))
attempt-IsProtocol c resume r (inr (inr (inr (n, e, h, _, q)))) = inr (inr (inr (n, h, q)))

-- The attempts follow each other after the interval, and each makes the handshake that the session
-- which it asks for needs: Resume if that has an ID, else Identify.
abbrev pub IsOrderly : ℕ → ℕ → List Trace → Type 0
IsOrderly interval delay [] = Unit
IsOrderly interval delay (t ∷ ts) =
    (t.delay ≡ delay)
    × IsProtocol (not (is_empty t.asked.id)) t.run.calls
    × IsOrderly interval interval ts

-- an attempt at which the context is seen to have ended
abbrev pub IsInterrupted : {E : Type 0} → Attempt E → Type 0
IsInterrupted a = (a.interrupted ≡ true) ⊎ (a.ended ≡ true)

-- why the loop stops with an error
abbrev pub IsCause : {E : Type 0} → Codes → Error → Attempt E → Type 0
IsCause k e a = (new_websocket_attempt a.creation ≡ inl e) ⊎ (k.can_not_identify e ≡ true)

-- Why the loop stops as it does, at some attempt.
abbrev pub IsReason : {E : Type 0} → Codes → Option Error → Attempt E → Type 0
IsReason k none a = IsInterrupted a
IsReason k (some e) a = IsCause k e a

abbrev pub HasReason : {E : Type 0} → Codes → Option Error → List (Attempt E) → Type 0
HasReason {E} k r attempts =
    (i : ℕ) × (a : Attempt E) × (get_elem? attempts i ≡ some a) × IsReason k r a

-- an attempt that makes a client, and that no end of the context meets
abbrev pub IsLasting : {E : Type 0} → Attempt E → Type 0
IsLasting a =
    (a.interrupted ≡ false)
    × (a.ended ≡ false)
    × ((identity : ℕ) × (c : Client) × (new_websocket_attempt a.creation ≡ inr (identity, c)))

stopped-inj : {r r' : Option Error} → stopped r ≡ stopped r' → r ≡ r'
stopped-inj h = cc

stopped-HasReason :
    {E : Type 0} (k : Codes) (a : Attempt E) (rest : List (Attempt E)) (r r' : Option Error)
    → IsReason k r a
    → stopped r ≡ stopped r'
    → HasReason k r' (a ∷ rest)
stopped-HasReason k a rest r r' h q =
    subst (λ x. HasReason k x (a ∷ rest)) (stopped-inj q) (0, a, refl, h)

later :
    {E : Type 0} (k : Codes) (r : Option Error) (a : Attempt E) (rest : List (Attempt E))
    → HasReason k r rest
    → HasReason k r (a ∷ rest)
later k r a rest (i, b, at, h) = (suc i, b, at, h)

module _ {S E : Type 0} (o : Observer S E) (k : Codes) (interval : ℕ) where
  trace-IsProtocol :
      (delay : ℕ) (resume : ResumableSession) (c : Client)
      → IsProtocol (not (is_empty resume.id)) (trace_of o k delay resume c).run.calls
  trace-IsProtocol delay resume c =
      attempt-IsProtocol c (not (is_empty resume.id)) _
        (run_websocket_attempt-IsAttempt c (not (is_empty resume.id)))

  pub start_from-IsOrderly :
      (delay : ℕ) (resume : ResumableSession) (s : S) (attempts : List (Attempt E))
      → IsOrderly interval delay (start_from o k interval delay resume s attempts).traces
  start_from-IsOrderly delay resume s [] = unfold start_from in tt
  start_from-IsOrderly delay resume s (a ∷ rest) =
      loop_cases o k interval delay resume s a rest (λ p. IsOrderly interval delay p.traces)
        (λ i. tt) (λ e n. tt)
        (λ identity c n. (
          λ d. (refl, trace-IsProtocol delay resume c, tt),
          λ e q. (
            λ f. (refl, trace-IsProtocol delay resume c, tt),
            λ f. (refl, trace-IsProtocol delay resume c, start_from-IsOrderly interval _ _ rest),
          ),
        ))

  pub start_from-HasReason :
      (delay : ℕ) (resume : ResumableSession) (s : S) (attempts : List (Attempt E))
      (r : Option Error)
      → (start_from o k interval delay resume s attempts).result ≡ stopped r
      → HasReason k r attempts
  start_from-HasReason delay resume s [] r = unfold start_from in λ h. cc
  start_from-HasReason delay resume s (a ∷ rest) r =
      loop_cases o k interval delay resume s a rest
        (λ p. p.result ≡ stopped r → HasReason k r (a ∷ rest))
        (λ i. stopped-HasReason k a rest none r (inl i))
        (λ e n. stopped-HasReason k a rest (some e) r (inl n))
        (λ identity c n. (
          λ d. stopped-HasReason k a rest none r (inr d),
          λ e q. (
            λ f. stopped-HasReason k a rest (some e) r (inr f),
            λ f h. later k r a rest (start_from-HasReason interval _ _ rest r h),
          ),
        ))

  pub persists :
      (delay : ℕ) (resume : ResumableSession) (s : S) (attempts : List (Attempt E))
      → ((e : Error) → k.can_not_identify e ≡ false)
      → All IsLasting attempts
      → ((start_from o k interval delay resume s attempts).result ≡ trying)
        × (length (start_from o k interval delay resume s attempts).traces ≡ length attempts)
  persists delay resume s [] m h = unfold start_from in (refl, refl)
  persists delay resume s (a ∷ rest) m ((i, d, (identity, c, n)), h) =
      loop_cases o k interval delay resume s a rest
        (λ p. (p.result ≡ trying) × (length p.traces ≡ suc (length rest))) (λ i'. absurd (cc))
        (λ e n'. absurd (cc))
        (λ identity' c' n'. (
          λ d'. absurd (cc),
          λ e q. (
            λ f. absurd (cc (m e)),
            λ f. let ih = persists interval _ _ rest m h in (ih.0, ap suc ih.1),
          ),
        ))

module _ {S E : Type 0} (o : Observer S E) (k : Codes) (q : Request) (s : S) where
  checked_cases {ℓ} :
      (attempts : List (Attempt E)) (P : Progress S → Type ℓ) (r : Option Error)
      → r ≡ refused q
      → ((e : Error)
          → refused q ≡ some e
          → P (record { state = s; traces = []; result = stopped (some e) }))
      → (refused q ≡ none → P (start_from o k (interval_of q) 0 first_resume s attempts))
      → P (start_checked o k q s attempts r)
  unfolding start_checked
  checked_cases attempts P none h g f = f (sym h)
  checked_cases attempts P (some e) h g f = g e (sym h)

  -- A property of `Start`, from each way through its checks.
  pub start_cases {ℓ} :
      (attempts : List (Attempt E)) (P : Progress S → Type ℓ)
      → (q.ended ≡ true → P (record { state = s; traces = []; result = stopped none }))
      → ((e : Error)
          → refused q ≡ some e
          → P (record { state = s; traces = []; result = stopped (some e) }))
      → (refused q ≡ none → P (start_from o k (interval_of q) 0 first_resume s attempts))
      → P (start o k q s attempts)
  unfolding start
  start_cases attempts P f g h =
      if_cases P q.ended f (λ _. checked_cases attempts P (refused q) refl g h)

  -- Why `Start` returns what it returns: `nil`, when the context has ended before it or at one of the
  -- attempts; an error, when a check fails with it, a client cannot be made, or it is one that
  -- forbids Identify.
  abbrev pub StopsFor : List (Attempt E) → Option Error → Type 0
  StopsFor attempts none = (q.ended ≡ true) ⊎ HasReason k none attempts
  StopsFor attempts (some e) = (refused q ≡ some e) ⊎ HasReason k (some e) attempts

  has_reason :
      (attempts : List (Attempt E)) (r : Option Error)
      → HasReason k r attempts
      → StopsFor attempts r
  has_reason attempts none h = inr h
  has_reason attempts (some e) h = inr h

  -- If `Start` returns `nil`, then the context had ended before it or was seen to have ended at one of
  -- the attempts; if it returns an error, then one of its checks failed with that error, or a client
  -- could not be made at one of the attempts, with that error, or the error forbids Identify.
  pub start-StopsFor :
      (attempts : List (Attempt E)) (r : Option Error)
      → (start o k q s attempts).result ≡ stopped r
      → StopsFor attempts r
  start-StopsFor attempts r =
      start_cases attempts (λ p. p.result ≡ stopped r → StopsFor attempts r)
        (λ h e. subst (StopsFor attempts) (stopped-inj e) (inl h))
        (λ e' h e. subst (StopsFor attempts) (stopped-inj e) (inl h))
        (λ h e.
          has_reason attempts r
            (start_from-HasReason o k (interval_of q) 0 first_resume s attempts r e))

  -- While the context runs, clients can be made and no error forbids Identify, `Start` does not return
  -- and makes an attempt for every entry of the script, whatever the attempts end with, provided
  -- that its checks pass.
  pub start_persists :
      (attempts : List (Attempt E))
      → q.ended ≡ false
      → refused q ≡ none
      → ((e : Error) → k.can_not_identify e ≡ false)
      → All IsLasting attempts
      → ((start o k q s attempts).result ≡ trying)
        × (length (start o k q s attempts).traces ≡ length attempts)
  start_persists attempts e r m h =
      start_cases attempts (λ p. (p.result ≡ trying) × (length p.traces ≡ length attempts))
        (λ e'. absurd (cc)) (λ e' r'. absurd (cc))
        (λ _. persists o k (interval_of q) 0 first_resume s attempts m h)
