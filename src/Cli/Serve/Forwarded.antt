-- ===== src/Cli/Serve/Forwarded.antt =====
-- root.go: the handler and the sender of a valid configuration together. What the parts show of an
-- alert is put together here from the request to the calls of the QQ API.
use gatus_qqbot.Base.{
  ℕ, ◌≤◌, true, false, ◌&&◌, not, List, [], ◌∷◌, ◌++◌, Option, none, some, ltb, ◌⊎◌, inl, inr, ◌≡◌,
  ◌≢◌, refl, sym, subst, ap, ◌∙◌, All, length, if_cases, Bool-cases, arith,
}
use gatus_qqbot.Cli.Serve.{limit_of, handler_options}
use gatus_qqbot.Config.{
  ℤ, pos, negsuc, is_below, TargetConfig, Config, Parsers, is_blank, is_loopback_address,
}
use gatus_qqbot.Config.Accepted.{IsServed}
use gatus_qqbot.Errors.{Error}
use gatus_qqbot.Gatus.Metadata.{text_eq→eq}
use gatus_qqbot.Qqbot.Sender.{Round, send, deliver}
use gatus_qqbot.Qqbot.Sender.Loop.{AllServed, deliver_served}
use gatus_qqbot.Server.Handler.{
  Options, Request, Env, Outcome, serve, alert, not_found, default_delivery_timeout,
}
use gatus_qqbot.Server.Handler.Effects.{alert-IsAdmitted, alert_accepted_iff, alert_bounded}
use gatus_qqbot.Server.Handler.Rejects.{IsAuthorized}
use gatus_qqbot.Strings.{Text, codes, text_eq, is_empty, trim_space}
use gatus_qqbot.Strings.Space.{is_empty-eq-nil}

-- Options that differ in the delivery timeout at most.
abbrev SameOptions : Options → Options → Type 0
SameOptions o o' =
    (o'.auth_token ≡ o.auth_token)
    × (o'.max_body_bytes ≡ o.max_body_bytes)
    × (o'.message_prefix ≡ o.message_prefix)
    × (o'.message_max_runes ≡ o.message_max_runes)

-- The mux calls the handler of alerts for the alert path alone.
abbrev IsRouted : Options → Env → Request → Outcome → Type 0
IsRouted o env r u =
    ((r.url_path ≡ o.alert_path) × ((o' : Options) × SameOptions o o' × (u ≡ alert o' env r)))
    ⊎ (u ≡ record { response = not_found; sent = []; logged = [] })

pub serve-IsRouted : (o : Options) (env : Env) (r : Request) → IsRouted o env r (serve o env r)
unfolding serve
serve-IsRouted o env r =
    if_cases (IsRouted o env r) (text_eq r.url_path o.alert_path)
      (λ h. inl (
        text_eq→eq _ _ h,
        if_cases
            (λ (o' : Options). (x : Options) × SameOptions o x × (alert o' env r ≡ alert x env r))
            (ltb 0 o.delivery_timeout) (λ _. (o, (refl, refl, refl, refl), refl))
            (λ _. (
              record o { delivery_timeout = default_delivery_timeout },
              (refl, refl, refl, refl),
              refl,
            )),
      ))
      (λ h. inr refl)

-- a limit of the configuration that is a natural number of at least `n`
limit_of_least :
    (n : ℕ) (z : ℤ) → is_below z n ≡ false → (k : ℕ) × (z ≡ pos k) × (limit_of z ≡ k) × (n ≤ k)
unfolding is_below limit_of
limit_of_least n (pos k) h = (k, refl, refl, ground arith)
limit_of_least n (negsuc k) h = absurd (cc)

-- No token is set, and the server listens on a loopback address; or the request bears the token.
abbrev pub IsTrusted : Parsers → Config → Request → Type 0
IsTrusted p c r =
    ((c.server.auth_token ≡ []) × (is_loopback_address p c.server.address ≡ true))
    ⊎ ((c.server.auth_token ≢ []) × (r.authorization ≡ codes "Bearer " ++ c.server.auth_token))

empty_token-IsTrusted :
    (p : Parsers) (c : Config) (r : Request)
    → IsServed p c
    → c.server.auth_token ≡ []
    → IsTrusted p c r
unfolding trim_space is_empty
empty_token-IsTrusted p c r s h =
    let guard : (is_blank c.server.auth_token && not (is_loopback_address p c.server.address))
        ≡ false =
      s.1.3 in
    let blank : is_blank c.server.auth_token ≡ true = rw h refl in
    inl (h, ground (arith, guard, blank))

IsAuthorized-IsTrusted :
    (p : Parsers) (c : Config) (r : Request) (o : Options)
    → IsServed p c
    → o.auth_token ≡ c.server.auth_token
    → IsAuthorized o r
    → IsTrusted p c r
unfolding is_empty
IsAuthorized-IsTrusted p c r o s q (inl h) = empty_token-IsTrusted p c r s (sym q ∙ h)
IsAuthorized-IsTrusted p c r o s q (inr h) = elim (Bool-cases (is_empty c.server.auth_token)) [
  | inl e ↦ empty_token-IsTrusted p c r s (is_empty-eq-nil _ e)
  | inr e ↦ inr (λ n. let e' : true ≡ false = rw n at e in cc, h ∙ ap (λ t. codes "Bearer " ++ t) q)
]

module _ (p : Parsers) (c : Config) (env : Env) (r : Request) where
  abbrev pub handled : Outcome
  handled = serve (handler_options p c) env r

  -- What an alert that reaches the sender has shown, and what is made of it.
  abbrev pub IsForwarded : Outcome → Type 0
  IsForwarded u =
      (r.url_path ≡ c.server.alert_path)
      × IsTrusted p c r
      × ((n : ℕ) × (c.message.max_length ≡ pos n)
          × (64 ≤ n)
          × All (λ (t : Text). length t ≤ n) u.sent)

  alert-IsForwarded :
      (o : Options)
      → IsServed p c
      → SameOptions (handler_options p c) o
      → r.url_path ≡ c.server.alert_path
      → (alert o env r).sent ≢ []
      → IsForwarded (alert o env r)
  unfolding handler_options
  alert-IsForwarded o s (a, _, _, m) h sent =
      let admitted = alert-IsAdmitted o env r sent in
      let (n, is, limit, least) = limit_of_least 64 c.message.max_length s.2.4 in
      let bound : o.message_max_runes ≡ n = m ∙ limit in
      (
        h,
        IsAuthorized-IsTrusted p c r o s a admitted.1,
        (
          n,
          is,
          least,
          subst (λ k. All (λ (t : Text). length t ≤ k) (alert o env r).sent) bound
              (alert_bounded o env r (omega (arith, bound, least))),
        ),
      )

  -- Once a configuration is valid, its handler hands a message to the sender only for a request of the
  -- configured path that bears the configured token, which is not empty, or for any request of that
  -- path if no token is configured, and then the server listens on a loopback address; and every
  -- message has at most as many runes as the configured length, which is at least 64.
  pub handled-IsForwarded : IsServed p c → handled.sent ≢ [] → IsForwarded handled
  unfolding handler_options
  handled-IsForwarded s sent = elim (serve-IsRouted (handler_options p c) env r) [
    | inl (h, (o, same, q)) ↦
        subst (λ u. u.sent ≢ [] → IsForwarded u) (sym q) (alert-IsForwarded o s same h) sent
    | inr q ↦ absurd (sent (ap (λ (u : Outcome). u.sent) q))
  ]

-- the sender of a configuration, in one call
abbrev pub sending : Env → Config → Option Error → (ℕ → Round) → Env
sending env c admission rounds = record env {
  send = λ timeout t. send admission rounds c.qq.targets t;
}

send_served :
    (admission : Option Error) (rounds : ℕ → Round) (ts : List TargetConfig) (t : Text)
    → send admission rounds ts t ≡ none
    → AllServed rounds 0 t ts (deliver rounds t ts).calls
unfolding send
send_served (some e) rounds ts t h = absurd (cc)
send_served none rounds ts t h = deliver_served rounds t ts h

module _ (p : Parsers) (c : Config) (env : Env) (r : Request) where
  -- A message that was handed over, and that every configured target has received.
  abbrev pub IsServedTo : (ℕ → Round) → Outcome → Type 0
  IsServedTo rounds u =
      (t : Text) × (u.sent ≡ t ∷ [])
      × AllServed rounds 0 t c.qq.targets (deliver rounds t c.qq.targets).calls

  alert_served :
      (o : Options) (admission : Option Error) (rounds : ℕ → Round)
      → (alert o (sending env c admission rounds) r).response.status ≡ 202
      → IsServedTo rounds (alert o (sending env c admission rounds) r)
  alert_served o admission rounds h =
      let (t, sent, ok) = (alert_accepted_iff o (sending env c admission rounds) r).0 h in
      (t, sent, send_served admission rounds c.qq.targets t ok)

  -- If the answer to a request is 202 Accepted, then one message was made of it, and every configured
  -- target was called with this message, in order, by the method of its type, and the QQ API
  -- reported no error for any of them, whatever the queue and the context did to the delivery.
  pub accepted_served :
      (admission : Option Error) (rounds : ℕ → Round)
      → (handled p c (sending env c admission rounds) r).response.status ≡ 202
      → IsServedTo rounds (handled p c (sending env c admission rounds) r)
  accepted_served admission rounds h =
      let env' = sending env c admission rounds in
      elim (serve-IsRouted (handler_options p c) env' r) [
        | inl (_, (o, _, q)) ↦
            subst (λ u. u.response.status ≡ 202 → IsServedTo rounds u) (sym q)
              (alert_served o admission rounds) h
        | inr q ↦ absurd (omega (arith, h, ap (λ (u : Outcome). u.response.status) q))
      ]
