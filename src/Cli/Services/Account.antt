-- ===== src/Cli/Services/Account.antt =====
-- services.go: which goroutines and results are under way in each phase; what the returns of the
-- services and the receives from other channels do to them.
use gatus_qqbot.Base.{
  ℕ, suc, ◌+◌, Bool, true, false, not, [], ◌∷◌, ◌++◌, Option, is_some, ◌≡◌, refl, sym, subst, ◌∙◌,
  length, length-append, if_cases, arith,
}
use gatus_qqbot.Errors.{Error}
use gatus_qqbot.Cli.Services.{
  Name, qq_gateway, http_server, ServiceResult, Service, idle, active, finished, after_end,
  after_timeout, after_both, after_first, Phase, starting, serving, waiting, returned, System,
  new_system, send_result, if_active, on_return, on_ready, on_context, on_timer,
}

abbrev pub weight : Service → ℕ
weight active = 1
weight _ = 0

-- how many results have still to be received in a phase
abbrev pub expected : Phase → ℕ
expected starting = 1
expected serving = 2
expected (waiting after_end) = 1
expected (waiting after_timeout) = 1
expected (waiting after_both) = 2
expected (waiting (after_first e)) = 1
expected (returned e) = 0

abbrev pub before_http : Phase → Bool
before_http starting = true
before_http (waiting after_end) = true
before_http (waiting after_timeout) = true
before_http _ = false

abbrev pub is_stopping : Phase → Bool
is_stopping starting = false
is_stopping serving = false
is_stopping _ = true

-- the phase leads to the result `nil`, as far as it has come
abbrev pub is_silent : Phase → Bool
is_silent starting = false
is_silent serving = false
is_silent (waiting after_end) = true
is_silent (waiting after_timeout) = false
is_silent (waiting after_both) = true
is_silent (waiting (after_first e)) = not (is_some e)
is_silent (returned e) = not (is_some e)

abbrev pub is_idle : Service → Bool
is_idle idle = true
is_idle _ = false

-- What is under way in the phase `p` of `y`.
pub record IsAccountedAt (p : Phase) (y : System) : Type 0 where
  pub outstanding : weight y.gateway + weight y.http + length y.results ≡ expected p
  pub unstarted : before_http p ≡ true → is_idle y.http ≡ true
  pub opened : is_idle y.http ≡ false → y.ready ≡ true
  pub stopping : is_stopping p ≡ true → y.cancelled ≡ true
  pub silent : is_silent p ≡ true → y.ctx_ended ≡ true

abbrev pub IsAccounted : System → Type 0
IsAccounted y = IsAccountedAt y.phase y

pub at_phase : (y : System) {p : Phase} → y.phase ≡ p → IsAccounted y → IsAccountedAt p y
at_phase y q h = subst (λ p. IsAccountedAt p y) q h

pub new_system-IsAccounted : IsAccounted new_system
new_system-IsAccounted = record {
  outstanding = refl;
  unstarted = (λ h. refl);
  opened = (λ h. cc);
  stopping = (λ h. cc);
  silent = (λ h. cc);
}

pub on_ready-IsAccounted :
    (y : System) (p : Phase) → y.phase ≡ p → IsAccounted y → IsAccounted (on_ready y p)
unfolding on_ready
on_ready-IsAccounted y starting q h =
    let s = at_phase y q h in
    if_cases IsAccounted y.ready
      (λ r. record {
        outstanding = ground (arith, s.outstanding, s.unstarted refl);
        unstarted = (λ b. cc);
        opened = (λ b. r);
        stopping = (λ b. cc);
        silent = (λ b. cc);
      })
      (λ r. h)
on_ready-IsAccounted y serving q h = h
on_ready-IsAccounted y (waiting w) q h = h
on_ready-IsAccounted y (returned e) q h = h

pub on_context-IsAccounted :
    (y : System) (p : Phase) → y.phase ≡ p → IsAccounted y → IsAccounted (on_context y p)
unfolding on_context
on_context-IsAccounted y starting q h =
    let s = at_phase y q h in
    if_cases IsAccounted y.ctx_ended
      (λ r. record {
        outstanding = s.outstanding;
        unstarted = s.unstarted;
        opened = s.opened;
        stopping = (λ b. refl);
        silent = (λ b. r);
      })
      (λ r. h)
on_context-IsAccounted y serving q h =
    let s = at_phase y q h in
    if_cases IsAccounted y.ctx_ended
      (λ r. record {
        outstanding = s.outstanding;
        unstarted = (λ b. cc);
        opened = s.opened;
        stopping = (λ b. refl);
        silent = (λ b. r);
      })
      (λ r. h)
on_context-IsAccounted y (waiting w) q h = h
on_context-IsAccounted y (returned e) q h = h

pub on_timer-IsAccounted :
    (y : System) (p : Phase) → y.phase ≡ p → IsAccounted y → IsAccounted (on_timer y p)
unfolding on_timer
on_timer-IsAccounted y starting q h =
    let s = at_phase y q h in
    record {
      outstanding = s.outstanding;
      unstarted = s.unstarted;
      opened = s.opened;
      stopping = (λ b. refl);
      silent = (λ b. cc);
    }
on_timer-IsAccounted y serving q h = h
on_timer-IsAccounted y (waiting w) q h = h
on_timer-IsAccounted y (returned e) q h = h

-- The goroutine of a service hands its weight over to its result.
sent-IsAccounted :
    (y : System) (g s : Service) (r : ServiceResult)
    → suc (weight g + weight s) ≡ weight y.gateway + weight y.http
    → is_idle s ≡ is_idle y.http
    → IsAccounted y
    → IsAccounted (record y { gateway = g; http = s; results = y.results ++ r ∷ [] })
sent-IsAccounted y g s r w i h = record {
  outstanding = ground (arith, h.outstanding, length-append y.results (r ∷ []));
  unstarted = (λ b. i ∙ h.unstarted b);
  opened = (λ b. h.opened (sym i ∙ b));
  stopping = h.stopping;
  silent = h.silent;
}

pub if_active_cases {ℓ} :
    (P : System → Type ℓ) (s : Service) (z y : System)
    → (s ≡ active → P z)
    → P y
    → P (if_active s z y)
unfolding if_active
if_active_cases P idle z y f h = h
if_active_cases P active z y f h = f refl
if_active_cases P finished z y f h = h

pub on_return-IsAccounted :
    (y : System) (name : Name) (e : Option Error) → IsAccounted y → IsAccounted (on_return y name e)
unfolding on_return send_result
on_return-IsAccounted y qq_gateway e h =
    if_active_cases IsAccounted y.gateway _ y
      (λ q. sent-IsAccounted y finished y.http _ (ground arith) refl h) h
on_return-IsAccounted y http_server e h =
    if_active_cases IsAccounted y.http _ y
      (λ q. sent-IsAccounted y y.gateway finished _ (ground arith) (ground arith) h) h
