-- ===== src/Qqbot/Session/Attempts.antt =====
-- gateway_session.go: the ways in which a pass through the loop of `Start` ends.
use gatus_qqbot.Base.{
  ℕ, true, false, not, List, [], ◌∷◌, none, some, ◌⊎◌, inl, inr, ◌≡◌, refl, sym, subst, if_cases,
  arith,
}
use gatus_qqbot.Errors.{Error}
use gatus_qqbot.Qqbot.Gateway.{ResumableSession}
use gatus_qqbot.Qqbot.Websocket.{Client, new_websocket_attempt, run_websocket_attempt}
use gatus_qqbot.Qqbot.Session.{
  Observer, Codes, Attempt, Trace, stopped, Progress, go_on, stop, Pass, attempt_error,
  close_session_attempt, after_run, run_created, pass_attempt, follow, start_from,
}
use gatus_qqbot.Strings.{is_empty}

module _ {S E : Type 0} (o : Observer S E) (k : Codes) where
  -- the trace of an attempt that made a client, and the state that the observer is left in
  abbrev pub trace_of : ℕ → ResumableSession → Client → Trace
  trace_of delay resume c = record {
    delay = delay;
    asked = resume;
    run = run_websocket_attempt c (not (is_empty resume.id));
  }

  abbrev pub running_state : ResumableSession → S → Attempt E → ℕ → S
  running_state resume s a identity = o.meanwhile (o.session_started s identity resume) a.event

  abbrev pub failure : S → Attempt E → ℕ → Error → S × ResumableSession
  failure s a identity e =
      o.session_failed s a.now identity e (k.can_not_resume e) (k.can_not_identify e)

  abbrev pub error_of : Trace → Error
  error_of t = attempt_error t.run.err

  -- A pass that fails goes on, or stops with an error that forbids Identify.
  abbrev pub IsFailed : Trace → S × ResumableSession → Pass S → Type 0
  IsFailed t f p =
      ((k.can_not_identify (error_of t) ≡ true)
        × (p ≡ record { state = f.0; traces = t ∷ []; next = stop (some (error_of t)) }))
      ⊎ ((k.can_not_identify (error_of t) ≡ false)
          × (p ≡ record { state = f.0; traces = t ∷ []; next = go_on f.1 }))

  -- What a pass that makes a client does.
  abbrev pub IsFinished : ℕ → ResumableSession → S → Attempt E → ℕ → Client → Pass S → Type 0
  IsFinished delay resume s a identity c p =
      let t = trace_of delay resume c in
      let s' = running_state resume s a identity in
      let f = failure s' a identity (error_of t) in
      ((a.ended ≡ true) × (p ≡ record { state = s'; traces = t ∷ []; next = stop none }))
      ⊎ IsFailed t f p

  -- What one pass through the loop does.
  abbrev pub PassCases : ℕ → ResumableSession → S → Attempt E → Pass S → Type 0
  PassCases delay resume s a p =
      ((a.interrupted ≡ true) × (p ≡ record { state = s; traces = []; next = stop none }))
      ⊎ ((e : Error) × (new_websocket_attempt a.creation ≡ inl e)
          × (p ≡ record { state = s; traces = []; next = stop (some e) }))
      ⊎ ((identity : ℕ) × (c : Client) × (new_websocket_attempt a.creation ≡ inr (identity, c))
          × IsFinished delay resume s a identity c p)

  run_created-IsFinished :
      (delay : ℕ) (resume : ResumableSession) (s : S) (a : Attempt E) (identity : ℕ) (c : Client)
      → IsFinished delay resume s a identity c
          (run_created o k delay resume s a (inr (identity, c)))
  unfolding run_created after_run close_session_attempt
  run_created-IsFinished delay resume s a identity c =
      let t = trace_of delay resume c in
      let f = failure (running_state resume s a identity) a identity (error_of t) in
      let is = IsFinished delay resume s a identity c in
      if_cases is a.ended (λ d. inl (d, refl))
        (λ d. inr (
          if_cases (λ n. IsFailed t f (record { state = f.0; traces = t ∷ []; next = n }))
            (k.can_not_identify (error_of t)) (λ i. inl (i, refl)) (λ i. inr (i, refl))))

  created-PassCases :
      (delay : ℕ) (resume : ResumableSession) (s : S) (a : Attempt E) (x : Error ⊎ (ℕ × Client))
      → new_websocket_attempt a.creation ≡ x
      → PassCases delay resume s a (run_created o k delay resume s a x)
  created-PassCases delay resume s a (inl e) h = inr (inl (e, h, unfold run_created in refl))
  created-PassCases delay resume s a (inr (identity, c)) h =
      inr (inr (identity, c, h, run_created-IsFinished delay resume s a identity c))

  pub pass_cases :
      (delay : ℕ) (resume : ResumableSession) (s : S) (a : Attempt E)
      → PassCases delay resume s a (pass_attempt o k delay resume s a)
  unfolding pass_attempt
  pass_cases delay resume s a =
      if_cases (PassCases delay resume s a) (not a.interrupted)
        (λ i. created-PassCases delay resume s a _ refl) (λ i. inl (ground arith, refl))

  -- A property of the loop, from each way in which its first pass ends.
  module _ (interval delay : ℕ) (resume : ResumableSession) (s : S) (a : Attempt E) where
    pub loop_cases {ℓ} :
        (rest : List (Attempt E)) (P : Progress S → Type ℓ)
        → (a.interrupted ≡ true → P (record { state = s; traces = []; result = stopped none }))
        → ((e : Error)
            → new_websocket_attempt a.creation ≡ inl e
            → P (record { state = s; traces = []; result = stopped (some e) }))
        → ((identity : ℕ) (c : Client)
            → new_websocket_attempt a.creation ≡ inr (identity, c)
            → (a.ended ≡ true
                → P (record {
                  state = running_state resume s a identity;
                  traces = trace_of delay resume c ∷ [];
                  result = stopped none;
                }))
              × ((e : Error)
                  → e ≡ error_of (trace_of delay resume c)
                  → let f = failure (running_state resume s a identity) a identity e in
                    (k.can_not_identify e ≡ true
                      → P (record {
                        state = f.0;
                        traces = trace_of delay resume c ∷ [];
                        result = stopped (some e);
                      }))
                    × (k.can_not_identify e ≡ false
                        → let q = start_from o k interval interval f.1 f.0 rest in
                          P (record q { traces = trace_of delay resume c ∷ q.traces }))))
        → P (start_from o k interval delay resume s (a ∷ rest))
    unfolding start_from follow
    loop_cases rest P f g h = elim (pass_cases delay resume s a) [
      | inl (i, q) ↦
          subst (λ p. P (follow p (λ r. start_from o k interval interval r p.state rest))) (sym q)
            (f i)
      | inr (inl (e, n, q)) ↦
          subst (λ p. P (follow p (λ r. start_from o k interval interval r p.state rest))) (sym q)
            (g e n)
      | inr (inr (identity, c, n, inl (d, q))) ↦
          subst (λ p. P (follow p (λ r. start_from o k interval interval r p.state rest))) (sym q)
            ((h identity c n).0 d)
      | inr (inr (identity, c, n, inr (inl (i, q)))) ↦
          subst (λ p. P (follow p (λ r. start_from o k interval interval r p.state rest))) (sym q)
            (((h identity c n).1 _ refl).0 i)
      | inr (inr (identity, c, n, inr (inr (i, q)))) ↦
          subst (λ p. P (follow p (λ r. start_from o k interval interval r p.state rest))) (sym q)
            (((h identity c n).1 _ refl).1 i)
    ]
