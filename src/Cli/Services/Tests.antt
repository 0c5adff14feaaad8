-- ===== src/Cli/Services/Tests.antt =====
-- services.go at concrete runs.
use gatus_qqbot.Base.{true, List, [], ◌∷◌, Option, none, some, ◌≡◌, refl, length}
use gatus_qqbot.Errors.{Error, sentinel, canceled, message, both, is, join_two, same_sentinel}
use gatus_qqbot.Cli.Services.{
  qq_gateway, http_server, service_failure, shutdown_error, active, finished, after_both, returned,
  serving, System, Event, become_ready, service_return, end_context, take_ready, take_result,
  take_context, take_timer, new_system, send_result, on_return, if_active, not_ready,
  on_result_waiting, classify, on_result, receive, on_ready, on_context, on_timer, on_take_result,
  step, run,
}
use gatus_qqbot.Cli.Services.Account.{weight}
use gatus_qqbot.Cli.Services.Drain.{returned_clean}
use gatus_qqbot.Cli.Services.Ends.{Returns, no_block}
use gatus_qqbot.Strings.{codes}

abbrev crash : Error
crash = message (codes "listen: address in use")

abbrev stop : Option Error
stop = some (sentinel canceled)

-- the server cannot listen, and the gateway ends when it is cancelled
abbrev crashed_run : List Event
crashed_run =
    become_ready
    ∷ take_ready
    ∷ service_return http_server (some crash)
    ∷ take_result
    ∷ service_return qq_gateway stop
    ∷ take_result
    ∷ []

abbrev stopping_run : List Event
stopping_run =
    become_ready
    ∷ take_ready
    ∷ end_context
    ∷ take_context
    ∷ service_return http_server none
    ∷ service_return qq_gateway stop
    ∷ []

abbrev serving_system : System
serving_system = record new_system { phase = serving; ready = true; http = active }

abbrev crashed_system : System
crashed_system = record serving_system {
  http = finished;
  results = record { name = http_server; err = some crash } ∷ [];
}

crash_is_reported : (run (codes "30s") new_system crashed_run).phase ≡ returned (some crash)
unfolding run step on_ready on_return if_active send_result on_take_result receive on_result
    on_result_waiting classify service_failure shutdown_error is same_sentinel join_two
crash_is_reported = refl

-- The gateway does not become ready in time, and ends with an error of its own.
timeout_is_reported :
    (run
      (codes "30s")
      new_system
      (take_timer ∷ service_return qq_gateway (some crash) ∷ take_result ∷ [])).phase
    ≡ returned (some (both (not_ready (codes "30s")) crash))
unfolding run step on_timer on_return if_active send_result on_take_result receive on_result
    on_result_waiting shutdown_error is join_two
timeout_is_reported = refl

returned_clean_example :
    let y = run (codes "30s") new_system crashed_run in
    (weight y.gateway ≡ 0)
    × (weight y.http ≡ 0)
    × (length y.results ≡ 0)
    × (y.cancelled ≡ true)
    × (some crash ≡ none → y.ctx_ended ≡ true)
returned_clean_example = returned_clean (codes "30s") crashed_run (some crash) crash_is_reported

no_block_example : Returns (codes "30s") (run (codes "30s") new_system stopping_run)
unfolding run step on_ready on_return if_active send_result on_context
no_block_example = no_block (codes "30s") stopping_run after_both refl refl refl
