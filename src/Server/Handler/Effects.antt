-- ===== src/Server/Handler/Effects.antt =====
-- handler.go: which requests reach the sender, and what every answer looks like.
use gatus_qqbot.Base.{
  ◌≤◌, true, false, [], ◌∷◌, Option, none, some, ◌≡◌, ◌≢◌, ◌⊎◌, ◌↔◌, refl, sym, ap, subst, arith,
  inl, inr, length, All, Bool-cases,
}
use gatus_qqbot.Errors.{Error, is, queue_full, deadline_exceeded}
use gatus_qqbot.Server.Handler.{
  Options, Request, Env, Response, Outcome, Prepared, reject, ready, prepare, deliver, answer,
  alert, json_type, retry_after,
}
use gatus_qqbot.Server.Handler.Rejects.{
  IsRefusal, IsSound, IsAdmitted, IsMade, IsMessage, prepare-IsMessage, prepare-IsSound,
  prepare_ready,
}
use gatus_qqbot.Strings.{Text}

-- A finished call: refused with nothing sent and nothing logged, or one message handed to the sender,
-- whose result alone decides the status.
abbrev pub IsOutcome : Options → Env → Outcome → Type 0
IsOutcome o env u =
    (IsRefusal u.response.status × (u.sent ≡ []) × (u.logged ≡ []))
    ⊎ ((t : Text) × (u.sent ≡ t ∷ [])
        × (u.response ≡ answer (env.send o.delivery_timeout t))
        × (length u.logged ≡ 1))

deliver-IsOutcome :
    (o : Options) (env : Env) (p : Prepared) → IsSound o p → IsOutcome o env (deliver o env p)
unfolding deliver
deliver-IsOutcome o env (reject r) h = inl (h, refl, refl)
deliver-IsOutcome o env (ready t endpoint state m) h = inr (t, refl, refl, refl)

pub alert-IsOutcome : (o : Options) (env : Env) (r : Request) → IsOutcome o env (alert o env r)
unfolding alert
alert-IsOutcome o env r = deliver-IsOutcome o env _ (prepare-IsSound o env r)

deliver-IsAdmitted :
    (o : Options) (env : Env) (r : Request) (p : Prepared)
    → prepare o env r ≡ p
    → (deliver o env p).sent ≢ []
    → IsAdmitted o env r
unfolding deliver
deliver-IsAdmitted o env r (reject q) e h = absurd (h refl)
deliver-IsAdmitted o env r (ready t endpoint state m) e h = prepare_ready o env r e

-- The sender is called only for a POST with the configured bearer token (or with no token
-- configured) whose media type is supported.
pub alert-IsAdmitted :
    (o : Options) (env : Env) (r : Request) → (alert o env r).sent ≢ [] → IsAdmitted o env r
unfolding alert
alert-IsAdmitted o env r h = deliver-IsAdmitted o env r (prepare o env r) refl h

answer_accepted : (e : Option Error) → (answer e).status ≡ 202 → e ≡ none
unfolding answer
answer_accepted none h = refl
answer_accepted (some e) h = ground arith

answer-none : (answer none).status ≡ 202
unfolding answer
answer-none = refl

-- The answer is 202 Accepted exactly when one message was handed to the sender and it reported
-- no error.
pub alert_accepted_iff :
    (o : Options) (env : Env) (r : Request)
    → ((alert o env r).response.status ≡ 202)
      ↔ ((t : Text) × ((alert o env r).sent ≡ t ∷ []) × (env.send o.delivery_timeout t ≡ none))
alert_accepted_iff o env r = elim (alert-IsOutcome o env r) [
  | inl (refusal, none_sent, _) ↦ (λ h. absurd (ground arith), λ (t, sent, ok). absurd (cc))
  | inr (t, sent, response, _) ↦ (
    λ h. (t, sent, answer_accepted _ (subst (λ q. q.status ≡ 202) response h)),
    λ (u, sent', ok). cc (ap (λ (q : Response). q.status) response, sent, sent', ok, answer-none),
  )
]

-- The answer that goes with a result of the sender.
abbrev pub IsAnswer : Option Error → Response → Type 0
IsAnswer none q = q.status ≡ 202
IsAnswer (some e) q =
    ((is queue_full e ≡ true) × (q.status ≡ 503) × (q.headers ≡ retry_after ∷ json_type ∷ []))
    ⊎ ((is queue_full e ≡ false)
        × (is deadline_exceeded e ≡ true)
        × (q.status ≡ 504)
        × (q.headers ≡ json_type ∷ []))
    ⊎ ((is queue_full e ≡ false)
        × (is deadline_exceeded e ≡ false)
        × (q.status ≡ 502)
        × (q.headers ≡ json_type ∷ []))

answer-IsAnswer : (e : Option Error) → IsAnswer e (answer e)
unfolding answer
answer-IsAnswer none = refl
answer-IsAnswer (some e) = elim (Bool-cases (is queue_full e)) [
  | inl f ↦ inl (f, rw f refl, rw f refl)
  | inr f ↦ inr (elim (Bool-cases (is deadline_exceeded e)) [
    | inl d ↦ inl (f, d, rw (f, d) refl, rw (f, d) refl)
    | inr d ↦ inr (f, d, rw (f, d) refl, rw (f, d) refl)
  ])
]

-- How the sender's result is reported: no error as 202; a full queue as 503 with Retry-After, also
-- when the error is a deadline as well; a deadline as 504; any other error as 502.
pub alert-IsAnswer :
    (o : Options) (env : Env) (r : Request) (t : Text)
    → (alert o env r).sent ≡ t ∷ []
    → IsAnswer (env.send o.delivery_timeout t) (alert o env r).response
alert-IsAnswer o env r t h = elim (alert-IsOutcome o env r) [
  | inl (_, nothing, _) ↦ absurd (cc)
  | inr (u, sent, response, _) ↦ subst (IsAnswer (env.send o.delivery_timeout t)) (sym response) (
      subst (λ v. IsAnswer (env.send o.delivery_timeout t) (answer (env.send o.delivery_timeout v)))
        (cc) (answer-IsAnswer (env.send o.delivery_timeout t)))
]

deliver-IsMade :
    (o : Options) (env : Env) (r : Request) (p : Prepared) {t : Text}
    → IsMessage o env r p
    → (deliver o env p).sent ≡ t ∷ []
    → IsMade o env r t
unfolding deliver
deliver-IsMade o env r (reject q) m h = absurd (cc)
deliver-IsMade o env r (ready u endpoint state kind) {t} m h = subst (IsMade o env r) (cc) m

-- A message that reaches the sender is made of one JSON alert that Validate accepts, with nothing
-- behind it, or of a whole text body that is within the size limit, by the media type.
pub alert-IsMade :
    (o : Options) (env : Env) (r : Request) (t : Text)
    → (alert o env r).sent ≡ t ∷ []
    → IsMade o env r t
unfolding alert
alert-IsMade o env r t h = deliver-IsMade o env r _ (prepare-IsMessage o env r) h

deliver_bounded :
    (o : Options) (env : Env) (p : Prepared)
    → IsSound o p
    → 1 ≤ o.message_max_runes
    → All (λ t. length t ≤ o.message_max_runes) (deliver o env p).sent
unfolding deliver
deliver_bounded o env (reject q) h n = tt
deliver_bounded o env (ready t endpoint state kind) h n = (h n, tt)

-- With a limit of at least 1 no message that reaches the sender has more runes than the limit.
pub alert_bounded :
    (o : Options) (env : Env) (r : Request)
    → 1 ≤ o.message_max_runes
    → All (λ t. length t ≤ o.message_max_runes) (alert o env r).sent
unfolding alert
alert_bounded o env r = deliver_bounded o env _ (prepare-IsSound o env r)
