-- ===== src/Cli/Shutdown/Tests.antt =====
-- A run of `serve` that is asked to stop.
use gatus_qqbot.Base.{false, List, [], ◌∷◌, none, some, ◌≡◌, refl, inl, inr}
use gatus_qqbot.Cli.Services.{
  qq_gateway, http_server, returned, Event, become_ready, service_return, end_context, take_ready,
  take_context, send_result, on_return, if_active, on_ready, on_context, step, run, new_system,
}
use gatus_qqbot.Cli.Shutdown.{GatewayEnd, ServerEnd, receives, graceful_shutdown}
use gatus_qqbot.Errors.{sentinel, server_closed, is, same_sentinel}
use gatus_qqbot.Qqbot.Gateway.Discovery.{discover, begin}
use gatus_qqbot.Qqbot.Gateway.Discovery.{run as run_gateway}
use gatus_qqbot.Qqbot.Gateway.Discovery.Tests.{api, botgo, ap, begins}
use gatus_qqbot.Qqbot.Gateway.Supervisor.{
  Config, select_context, select, run_select, end_context as end_gateway, step as step_gateway,
  run as run_loop,
}
use gatus_qqbot.Server.Life.{
  context_done, serve_result, run_shutdown, run_stop, run_listening, http_result, http_service,
}
use gatus_qqbot.Server.Life.{run as run_server}
use gatus_qqbot.Strings.{codes, text_eq, is_empty}

abbrev config : Config
config = record { recovery_timeout = 30_000_000_000; timeout_text = codes "30s" }

gateway_end : GatewayEnd none
unfolding run_gateway run_loop step_gateway select run_select discover text_eq is_empty begin
gateway_end = record {
  api = api;
  botgo = botgo;
  config = config;
  access_point = ap;
  before = end_gateway ∷ [];
  after = select_context ∷ [];
  begun = begins;
  ending = (refl, inl refl);
  returns = refl;
}

server_end : ServerEnd none
unfolding http_service run_server run_listening run_stop run_shutdown serve_result http_result is
    same_sentinel
server_end = record {
  address = codes ":8080";
  script = record {
    ended = false;
    listen = none;
    stop = context_done none none (some (sentinel server_closed));
  };
  in_time = inr (refl, (none, some (sentinel server_closed), refl, refl));
  returns = refl;
}

abbrev asked : List Event
asked = become_ready ∷ take_ready ∷ end_context ∷ []

abbrev stopping : List Event
stopping = take_context ∷ service_return http_server none ∷ service_return qq_gateway none ∷ []

graceful_shutdown_example :
    (run
      (codes "30s")
      (run (codes "30s") (run (codes "30s") new_system asked) stopping)
      receives).phase
    ≡ returned none
unfolding run step on_ready on_context on_return if_active send_result
graceful_shutdown_example =
    graceful_shutdown (codes "30s") asked stopping refl refl refl
      (tt, (server_end, (gateway_end, tt))) refl refl
