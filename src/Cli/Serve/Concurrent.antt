-- ===== src/Cli/Serve/Concurrent.antt =====
-- root.go: a request among others, whose calls of `Send` share the sender of the configuration.
use gatus_qqbot.Base.{
  ℕ, List, [], ◌∷◌, ◌++◌, Option, none, some, ◌≡◌, inl, inr, sym, subst, ap, ◌∙◌, get_elem?, arith,
}
use gatus_qqbot.Cli.Serve.{limit_of, handler_options}
use gatus_qqbot.Cli.Serve.Forwarded.{handled, serve-IsRouted}
use gatus_qqbot.Config.{Config, Parsers}
use gatus_qqbot.Errors.{Error}
use gatus_qqbot.Qqbot.Queue.{Sender, returned, Event, run, init}
use gatus_qqbot.Qqbot.Queue.Answered.{heard}
use gatus_qqbot.Qqbot.Queue.Answered.Runs.{heard-quiet}
use gatus_qqbot.Qqbot.Queue.Answered.Targets.{AllAnswered, served-AllAnswered}
use gatus_qqbot.Qqbot.Queue.Serial.{Past, calls_of, all_calls}
use gatus_qqbot.Qqbot.Queue.Serial.Reachable.{reachable-Serial}
use gatus_qqbot.Qqbot.Sender.{Call}
use gatus_qqbot.Server.Handler.{Env, Request, Outcome}
use gatus_qqbot.Server.Handler.Effects.{alert_accepted_iff}
use gatus_qqbot.Strings.{Text}

-- the sender of a configuration
abbrev pub sender_of : Config → Sender
sender_of c = record {
  targets = c.qq.targets;
  max_pending_alerts = limit_of c.qq.max_pending_alerts;
}

-- the handler's environment, in which the call of `Send` returns this
abbrev pub answering : Env → Option Error → Env
answering env result = record env { send = λ timeout t. result }

-- The log is made of whole deliveries and of one that is not over; one of the first is of this call,
-- and every target has got its message, with what this call has met in the run.
abbrev pub IsDelivered : Sender → List Text → List (ℕ × Event) → ℕ → Text → Type 0
IsDelivered sender contents es i text =
    (before : List Past) × (d : Past) × (after : List Past) × (current : List Call) × ((run sender
        (init contents) es).log
      ≡ all_calls sender (before ++ (d ∷ after)) ++ current)
    × (d.process ≡ i)
    × (d.content ≡ text)
    × AllAnswered text sender.targets (heard sender (init contents) i es) (calls_of sender d)

returned_none-IsDelivered :
    (sender : Sender) (contents : List Text) (es : List (ℕ × Event)) (i : ℕ) (text : Text)
    → get_elem? (run sender (init contents) es).processes i
      ≡ some (record { content = text; stage = returned none })
    → IsDelivered sender contents es i text
returned_none-IsDelivered sender contents es i text at =
    let (past, current, logged, _, _, _, stands) = reachable-Serial sender contents es in
    let (before, d, after, e, p, c, s) = stands i _ at in
    (
      before,
      d,
      after,
      current,
      subst (λ ds. (run sender (init contents) es).log ≡ all_calls sender ds ++ current) e logged,
      p,
      c,
      served-AllAnswered d.rounds 0 text sender.targets _ _ s
          (heard-quiet sender contents es i text at),
    )

module _ (p : Parsers) (c : Config) (env : Env) (r : Request) where
  accepted-none :
      (result : Option Error)
      → (handled p c (answering env result) r).response.status ≡ 202
      → result ≡ none
  accepted-none result h = elim (serve-IsRouted (handler_options p c) (answering env result) r) [
    | inl (_, (o, _, q)) ↦
        ((alert_accepted_iff o (answering env result) r).0
          (ap (λ (u : Outcome). u.response.status) (sym q) ∙ h)).2
    | inr q ↦ absurd (omega (arith, h, ap (λ (u : Outcome). u.response.status) q))
  ]

  -- Requests may be handled at once, so that their calls of `Send` interleave in any way over the queue of
  -- the configuration. If the handler made this message of a request, the call of `Send` with it has
  -- returned and the answer was 202 Accepted, then the calls of the API are those of deliveries one
  -- behind the other, and one of them is the delivery of this call: every configured target was called
  -- with this message, in order, by the method of its type; and this call has met in the run one
  -- answer of the QQ API for each target, none of them an error, while the context had not ended.
  pub accepted-IsDelivered :
      (contents : List Text) (es : List (ℕ × Event)) (i : ℕ) (text : Text) (result : Option Error)
      → get_elem? (run (sender_of c) (init contents) es).processes i
        ≡ some (record { content = text; stage = returned result })
      → (handled p c (answering env result) r).sent ≡ text ∷ []
      → (handled p c (answering env result) r).response.status ≡ 202
      → IsDelivered (sender_of c) contents es i text
  accepted-IsDelivered contents es i text result at sent h =
      let y = run (sender_of c) (init contents) es in
      returned_none-IsDelivered (sender_of c) contents es i text (
        subst (λ o. get_elem? y.processes i ≡ some (record { content = text; stage = returned o }))
          (accepted-none result h) at)
