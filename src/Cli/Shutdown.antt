-- ===== src/Cli/Shutdown.antt =====
-- services.go with the services that root.go gives it: the gateway's `Run` and the HTTP service, when
-- the process is asked to stop.
mod Tests
use gatus_qqbot.Base.{
  true, false, List, [], ◌∷◌, ◌++◌, Option, none, some, ◌≡◌, ◌≢◌, ◌⊎◌, inl, inr, refl, sym, ap,
  subst, ◌∙◌, All, All-mono, All-append, if_cases, arith,
}
use gatus_qqbot.Cli.Services.{
  qq_gateway, http_server, ServiceResult, shutdown_error, Phase, serving, returned, System, Event,
  become_ready, service_return, end_context, take_ready, take_result, take_context, take_timer, run,
}
use gatus_qqbot.Cli.Services.{new_system as new_services}
use gatus_qqbot.Cli.Services.Account.{weight}
use gatus_qqbot.Cli.Services.Ends.{Returns, services_end, run-append}
use gatus_qqbot.Cli.Services.Report.{IsClean, CleanEvent, clean_shutdown}
use gatus_qqbot.Errors.{Error, is, server_closed}
use gatus_qqbot.Qqbot.Gateway.Discovery.{
  WebsocketAp, Api, Botgo, Start, started, refused, begin, run_started,
}
use gatus_qqbot.Qqbot.Gateway.Discovery.{run as run_gateway}
use gatus_qqbot.Qqbot.Gateway.Supervisor.{Config, new_system, stopped}
use gatus_qqbot.Qqbot.Gateway.Supervisor.{
  Event as GatewayEvent, System as GatewaySystem, run as run_loop,
}
use gatus_qqbot.Qqbot.Gateway.Supervisor.Ending.{IsEnding, run-IsEnding, IsEnding-none}
use gatus_qqbot.Qqbot.Gateway.Supervisor.Ending.{run-append as gateway-append}
use gatus_qqbot.Server.Life.{
  Script, Stop, Run, served, context_done, serve_result, run_shutdown, run_stop, run_listening,
  http_result, http_service,
}
use gatus_qqbot.Server.Life.{run as run_server}
use gatus_qqbot.Strings.{Text}

-- `Run` of the gateway had started the session manager, its context ended while it ran, and then it
-- returned `e`.
pub record GatewayEnd (e : Option Error) : Type 0 where
  pub api : Api
  pub botgo : Botgo
  pub config : Config
  pub access_point : WebsocketAp
  pub before : List GatewayEvent
  pub after : List GatewayEvent
  pub begun : begin false api botgo ≡ started access_point
  pub ending : IsEnding (run_loop config new_system before)
  pub returns : run_gateway false api botgo config (before ++ after) ≡ stopped e

-- what `Serve` returns once the server is shut down
abbrev pub IsClosed : Option Error → Type 0
IsClosed none = Unit
IsClosed (some e) = is server_closed e ≡ true

-- The HTTP service did not get to listen before the end of its context, or the server was shut down
-- in time and `Serve` returned http.ErrServerClosed or nil; and then the service returned `e`.
pub record ServerEnd (e : Option Error) : Type 0 where
  pub address : Text
  pub script : Script
  pub in_time :
      (script.ended ≡ true)
      ⊎ ((script.listen ≡ none)
          × ((close : Option Error) × (serve : Option Error) × (script.stop
                ≡ context_done none close serve)
              × IsClosed serve))
  pub returns : (http_service address script).result ≡ e

GatewayEnd-none : (e : Option Error) → GatewayEnd e → e ≡ none
unfolding run_gateway run_started
GatewayEnd-none e g =
    let loop : (run_loop g.config new_system (g.before ++ g.after)).result ≡ stopped e =
      ap (run_started g.config (g.before ++ g.after)) (sym g.begun) ∙ g.returns in
    let final = run-IsEnding g.config (run_loop g.config new_system g.before) g.after g.ending in
    IsEnding-none (run_loop g.config (run_loop g.config new_system g.before) g.after) e final (
      ap (λ (y : GatewaySystem). y.result)
        (sym (gateway-append g.config new_system g.before g.after))
      ∙ loop)

serve_result-none : (serve : Option Error) → IsClosed serve → serve_result serve ≡ none
unfolding serve_result
serve_result-none none h = refl
serve_result-none (some e) h = rw h refl

run_stop-none :
    (stop : Stop) (close serve : Option Error)
    → stop ≡ context_done none close serve
    → IsClosed serve
    → (run_stop stop).result ≡ none
unfolding run_stop run_shutdown
run_stop-none stop close serve h k = rw h (serve_result-none serve k)

run_server-none :
    {e : Option Error} (s : ServerEnd e) → (run_server s.address s.script).result ≡ none
unfolding run_server run_listening
run_server-none s =
    if_cases (λ (r : Run). r.result ≡ none) s.script.ended (λ b. refl)
      (λ b. elim s.in_time [
        | inl h ↦ absurd (cc)
        | inr (l, (close, serve, h, k)) ↦ rw l (run_stop-none s.script.stop close serve h k)
      ])

ServerEnd-none : (e : Option Error) → ServerEnd e → e ≡ none
unfolding http_service http_result
ServerEnd-none e s = sym s.returns ∙ ap http_result (run_server-none s)

-- every return of a service is such an end
abbrev pub IsStopping : Event → Type 0
IsStopping (service_return qq_gateway e) = GatewayEnd e
IsStopping (service_return http_server e) = ServerEnd e
IsStopping _ = Unit

IsStopping-CleanEvent : (e : Event) → IsStopping e → CleanEvent e
unfolding shutdown_error
IsStopping-CleanEvent (service_return qq_gateway e) h = rw (GatewayEnd-none e h) refl
IsStopping-CleanEvent (service_return http_server e) h = rw (ServerEnd-none e h) refl
IsStopping-CleanEvent become_ready h = tt
IsStopping-CleanEvent end_context h = tt
IsStopping-CleanEvent take_ready h = tt
IsStopping-CleanEvent take_result h = tt
IsStopping-CleanEvent take_context h = tt
IsStopping-CleanEvent take_timer h = tt

no_error :
    (t : Text) (y : System) (es : List Event) (e : Error)
    → y.phase ≡ serving
    → y.ctx_ended ≡ true
    → y.results ≡ []
    → All IsStopping es
    → (run t y es).phase ≢ returned (some e)
no_error t y es e p c r h =
    clean_shutdown t y es e p c (rw r tt)
      (All-mono IsStopping CleanEvent IsStopping-CleanEvent es h)

returned-none :
    (p : Phase) (o : Option Error)
    → p ≡ returned o
    → ((e : Error) → p ≢ returned (some e))
    → p ≡ returned none
returned-none p none h n = h
returned-none p (some e) h n = absurd (n e h)

abbrev pub receives : List Event
receives = take_result ∷ take_result ∷ []

-- When the process is asked to stop while the gateway and the HTTP server run and neither has returned,
-- and the server then is shut down in time, `serve` ends without an error: in whatever order the
-- services return and their results are received, once both have returned two receives more are
-- enough, and what is returned is nil.
pub graceful_shutdown :
    (t : Text) (before es : List Event)
    → let y = run t new_services before in
      let z = run t y es in
      y.phase ≡ serving
      → y.ctx_ended ≡ true
      → y.results ≡ []
      → All IsStopping es
      → weight z.gateway ≡ 0
      → weight z.http ≡ 0
      → (run t z receives).phase ≡ returned none
graceful_shutdown t before es p c r h g s =
    let y = run t new_services before in
    let whole = run-append t new_services before es in
    let end : Returns t (run t y es) = subst (Returns t) whole (
      services_end t (before ++ es) (ap (λ (x : System). weight x.gateway) whole ∙ g)
        (ap (λ (x : System). weight x.http) whole ∙ s)) in
    returned-none (run t (run t y es) receives).phase end.0 end.1 (λ e q.
      no_error t y (es ++ receives) e p c r (All-append IsStopping es receives h (tt, (tt, tt)))
        (ap (λ (x : System). x.phase) (run-append t y es receives) ∙ q))
