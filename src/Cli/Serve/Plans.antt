-- ===== src/Cli/Serve/Plans.antt =====
-- root.go: the token that the command `serve` asks for, and the services that it runs.
use gatus_qqbot.Base.{
  ℕ, zero, suc, List, [], ◌∷◌, Option, none, some, ◌⊎◌, inl, inr, ◌≡◌, refl, true, false, if_cases,
  arith,
}
use gatus_qqbot.Cli.Serve.{
  Action, run_services, World, value_of, plan_of, limit_of, handler_options, Plan, run_client,
}
use gatus_qqbot.Config.{
  ℤ, pos, negsuc, is_below, Config, Parsers, positive_duration, duration_error,
}
use gatus_qqbot.Config.Accepted.{IsServed}
use gatus_qqbot.Config.Load.{
  listen_address, request_timeout, delivery_timeout, gateway_ready_timeout, shutdown_timeout,
}
use gatus_qqbot.Errors.{Error}
use gatus_qqbot.Qqbot.Client.{
  Sdk, TokenRequest, configure_sdk, after_token, authenticate, from_context,
}
use gatus_qqbot.Strings.{Text, codes}

-- a duration of at least one nanosecond
abbrev pub IsPositive : Error ⊎ ℤ → Type 0
IsPositive o = (n : ℕ) × (o ≡ inr (pos (suc n)))

positive_duration-IsPositive :
    (name : Text) (d : Error ⊎ ℤ)
    → duration_error (positive_duration name d) ≡ none
    → IsPositive (positive_duration name d)
unfolding duration_error positive_duration is_below
positive_duration-IsPositive name (inl e) h = absurd (cc)
positive_duration-IsPositive name (inr (negsuc n)) h = absurd (cc)
positive_duration-IsPositive name (inr (pos zero)) h = absurd (cc)
positive_duration-IsPositive name (inr (pos (suc n))) h = (n, ground arith)

-- None of the errors that the command throws away can occur.
abbrev pub HasTimeouts : Parsers → Config → Type 0
HasTimeouts p c =
    IsPositive (request_timeout p c)
    × IsPositive (delivery_timeout p c)
    × IsPositive (gateway_ready_timeout p c)
    × IsPositive (shutdown_timeout p c)

pub IsServed-HasTimeouts : (p : Parsers) (c : Config) → IsServed p c → HasTimeouts p c
IsServed-HasTimeouts p c h = (
  positive_duration-IsPositive _ _ h.2.0,
  positive_duration-IsPositive _ _ h.2.1,
  positive_duration-IsPositive _ _ h.2.3,
  positive_duration-IsPositive _ _ h.1.7,
)

-- a limit of the configuration, where a negative one acts as 0 does
abbrev pub IsLimit : ℤ → ℕ → Type 0
IsLimit (pos n) m = m ≡ n
IsLimit (negsuc n) m = m ≡ 0

limit_of-IsLimit : (z : ℤ) → IsLimit z (limit_of z)
unfolding limit_of
limit_of-IsLimit (pos n) = refl
limit_of-IsLimit (negsuc n) = refl

-- The services are those that the configuration asks for, with its timeouts.
abbrev pub IsPlan : Parsers → Config → Plan → Type 0
IsPlan p c plan =
    (request : ℕ) × (delivery : ℕ) × (gateway : ℕ) × (shutdown : ℕ) × (body : ℕ) × (runes : ℕ)
    × (request_timeout p c ≡ inr (pos (suc request)))
    × (delivery_timeout p c ≡ inr (pos (suc delivery)))
    × (gateway_ready_timeout p c ≡ inr (pos (suc gateway)))
    × (shutdown_timeout p c ≡ inr (pos (suc shutdown)))
    × IsLimit c.server.max_body_bytes body
    × IsLimit c.message.max_length runes
    × (plan ≡ record {
      client = record { app_id = c.qq.app_id; timeout = pos (suc request) };
      targets = c.qq.targets;
      max_pending_alerts = c.qq.max_pending_alerts;
      gateway_timeout = pos (suc gateway);
      handler = record {
        alert_path = c.server.alert_path;
        auth_token = c.server.auth_token;
        max_body_bytes = body;
        message_prefix = c.message.prefix;
        message_max_runes = runes;
        delivery_timeout = suc delivery;
      };
      address = listen_address c;
      shutdown_timeout = pos (suc shutdown);
    })

plan_of-IsPlan :
    (p : Parsers) (c : Config)
    → HasTimeouts p c
    → IsPlan p c
        (plan_of p c (record { app_id = c.qq.app_id; timeout = value_of (request_timeout p c) }))
unfolding plan_of handler_options value_of limit_of
plan_of-IsPlan p c ((r, q₁), (d, q₂), (g, q₃), (s, q₄)) = (
  r,
  d,
  g,
  s,
  limit_of c.server.max_body_bytes,
  limit_of c.message.max_length,
  q₁,
  q₂,
  q₃,
  q₄,
  limit_of-IsLimit c.server.max_body_bytes,
  limit_of-IsLimit c.message.max_length,
  rw (q₁, q₂, q₃, q₄) refl,
)

-- where the token is asked for: the domain of QQ, if no client has been made before
abbrev pub IsTokenDomain : Sdk → Text → Type 0
IsTokenDomain k domain =
    ((k.configured ≡ true) × (domain ≡ k.token_domain))
    ⊎ ((k.configured ≡ false) × (domain ≡ codes "https://api.bot.qq.com"))

-- No token is asked for if the context has ended, else one, with the configured credentials.
abbrev pub AsksToken : World → Config → List TokenRequest → Type 0
AsksToken w c requests =
    ((e : Error) × (w.authentication.before ≡ some e) × (requests ≡ []))
    ⊎ ((domain : Text) × (w.authentication.before ≡ none)
        × IsTokenDomain w.sdk domain
        × (requests
            ≡ record { domain = domain; app_id = c.qq.app_id; app_secret = c.qq.app_secret } ∷ []))

-- The context has not ended before the token or behind it, and there is a token.
abbrev pub IsAuthenticated : World → Type 0
IsAuthenticated w =
    (w.authentication.before ≡ none)
    × (w.authentication.token ≡ none)
    × (w.authentication.after ≡ none)

abbrev pub RunsServices : World → Config → List Action → Type 0
RunsServices w c services =
    (¬ IsAuthenticated w × (services ≡ []))
    ⊎ (IsAuthenticated w
        × ((plan : Plan) × IsPlan w.parsers c plan × (services ≡ run_services plan ∷ [])))

configure_sdk-IsTokenDomain : (k : Sdk) → IsTokenDomain k (configure_sdk k).token_domain
unfolding configure_sdk
configure_sdk-IsTokenDomain k =
    if_cases (λ (x : Sdk). IsTokenDomain k x.token_domain) k.configured (λ h. inl (h, refl))
      (λ h. inr (h, refl))

module _ (w : World) (c : Config) where
  pub from_context-AsksToken :
      (timeout : ℤ) (o : Option Error)
      → w.authentication.before ≡ o
      → AsksToken w c
          (from_context w.sdk w.authentication c.qq.app_id c.qq.app_secret timeout o).requests
  unfolding from_context authenticate
  from_context-AsksToken timeout (some e) h = inl (e, h, refl)
  from_context-AsksToken timeout none h =
      inr ((configure_sdk w.sdk).token_domain, h, configure_sdk-IsTokenDomain w.sdk, refl)

  token_services :
      (t a : Option Error)
      → HasTimeouts w.parsers c
      → w.authentication.before ≡ none
      → w.authentication.token ≡ t
      → w.authentication.after ≡ a
      → RunsServices w c
          (run_client w c (
            after_token t a (record {
              app_id = c.qq.app_id;
              timeout = value_of (request_timeout w.parsers c);
            }))).actions
  unfolding run_client after_token
  token_services (some e) a h b t d = inl (λ (_, n, _). absurd (cc), refl)
  token_services none (some e) h b t d = inl (λ (_, _, n). absurd (cc), refl)
  token_services none none h b t d = inr ((b, t, d), (_, plan_of-IsPlan w.parsers c h, refl))

  pub from_context-RunsServices :
      (o : Option Error)
      → HasTimeouts w.parsers c
      → w.authentication.before ≡ o
      → RunsServices w c
          (run_client w c
            (from_context w.sdk w.authentication c.qq.app_id c.qq.app_secret
              (value_of (request_timeout w.parsers c))
              o).result).actions
  unfolding run_client from_context authenticate
  from_context-RunsServices (some e) h b = inl (λ (n, _, _). absurd (cc), refl)
  from_context-RunsServices none h b =
      token_services w.authentication.token w.authentication.after h b refl refl
