-- ===== src/Cli/Serve/Started.antt =====
-- root.go: what has been checked before the command `serve` does anything, and what it does then.
use gatus_qqbot.Base.{List, [], ◌∷◌, ◌++◌, map, Option, none, some, ◌⊎◌, inl, inr, ◌≡◌, refl}
use gatus_qqbot.Cli.Serve.{
  Action, set_default_logger, request_token, World, Outcome, value_of, run_client, with_logger,
  with_validity, with_config, serve_command,
}
use gatus_qqbot.Config.{Config}
use gatus_qqbot.Config.Accepted.{IsServed, validate_serve_iff}
use gatus_qqbot.Config.Load.{load, request_timeout}
use gatus_qqbot.Config.Serve.{validate_serve}
use gatus_qqbot.Errors.{Error}
use gatus_qqbot.Logging.{Logger, new_logger}
use gatus_qqbot.Logging.Accepted.{new_logger_iff}
use gatus_qqbot.Qqbot.Client.{TokenRequest, new_client}
use gatus_qqbot.Strings.{Text}
use gatus_qqbot.Cli.Serve.Plans.{
  IsServed-HasTimeouts, AsksToken, RunsServices, from_context-AsksToken, from_context-RunsServices,
}

-- What holds once the command has done something.
abbrev pub IsStarted : World → Text → Outcome → Type 0
IsStarted w path o =
    (c : Config) × (l : Logger) × (requests : List TokenRequest) × (services : List Action) × (load
        w.decode path
      ≡ inr c)
    × IsServed w.parsers c
    × (new_logger c.log ≡ inr l)
    × AsksToken w c requests
    × RunsServices w c services
    × (o.actions ≡ set_default_logger l ∷ (map request_token requests ++ services))

with_logger-IsStarted :
    (w : World) (path : Text) (c : Config) (r : Error ⊎ Logger)
    → load w.decode path ≡ inr c
    → IsServed w.parsers c
    → new_logger c.log ≡ r
    → IsStarted w path (with_logger w c r)
unfolding with_logger new_client
with_logger-IsStarted w path c (inl e) h s q =
    let (l, k) = (new_logger_iff c.log).1 s.6 in absurd (cc)
with_logger-IsStarted w path c (inr l) h s q =
    let made =
      new_client w.sdk w.authentication c.qq.app_id c.qq.app_secret
        (value_of (request_timeout w.parsers c)) in
    let before = w.authentication.before in
    (
      c,
      l,
      made.requests,
      (run_client w c made.result).actions,
      h,
      s,
      q,
      from_context-AsksToken w c (value_of (request_timeout w.parsers c)) before refl,
      from_context-RunsServices w c before (IsServed-HasTimeouts w.parsers c s) refl,
      refl,
    )

-- Nothing is done, and an error returned
abbrev pub IsRefused : Outcome → Type 0
IsRefused o = (o.actions ≡ []) × ((e : Error) × (o.result ≡ some e))

with_validity-IsStarted :
    (w : World) (path : Text) (c : Config) (v : Option Error)
    → load w.decode path ≡ inr c
    → validate_serve w.parsers c ≡ v
    → IsRefused (with_validity w c v) ⊎ IsStarted w path (with_validity w c v)
unfolding with_validity
with_validity-IsStarted w path c (some e) h q = inl (refl, (_, refl))
with_validity-IsStarted w path c none h q =
    inr (with_logger-IsStarted w path c (new_logger c.log) h ((validate_serve_iff _ _).0 q) refl)

with_config-IsStarted :
    (w : World) (path : Text) (r : Error ⊎ Config)
    → load w.decode path ≡ r
    → IsRefused (with_config w r) ⊎ IsStarted w path (with_config w r)
unfolding with_config
with_config-IsStarted w path (inl e) h = inl (refl, (e, refl))
with_config-IsStarted w path (inr c) h =
    with_validity-IsStarted w path c (validate_serve w.parsers c) h refl

-- The command `serve` does nothing and returns an error; or its configuration was loaded and is
-- valid and its logger could be made, and what the command does is to set this logger; then to ask
-- for a token once, with the configured credentials and at the domain of QQ or the one that BotGo
-- has been configured with before, or not to ask if the context has ended; and then, if and only if
-- there is a token and the context has not ended before it or behind it, to run the services with
-- the client, the targets, the handler's options, the address and the limits of the configuration
-- and with its four timeouts, all of which are positive.
pub serve_command-IsStarted :
    (w : World) (path : Text)
    → IsRefused (serve_command w path) ⊎ IsStarted w path (serve_command w path)
unfolding serve_command
serve_command-IsStarted w path = with_config-IsStarted w path (load w.decode path) refl
