-- ===== src/Server/Life.antt =====
-- internal/server/server.go: `Run`; and the service of internal/cli/root.go that calls it. What
-- net/http does with the listener and the server is given by a script.
pub mod Shutdown
mod Tests
use gatus_qqbot.Base.{Bool, true, false, List, [], ◌∷◌, ◌++◌, Option, none, some, if◌then◌else◌}
use gatus_qqbot.Errors.{Error, wrap, is, server_closed, join_two}
use gatus_qqbot.Strings.{Text, codes}

-- How the `select` ends: `Serve` returns; or the context ends, and then `Shutdown` returns, and with
-- an error `Close`, and without one `Serve`.
pub data Stop : Type 0 where
  served : Option Error → Stop
  context_done : Option Error → Option Error → Option Error → Stop

-- whether `ctx.Err()` is set at the start, and the error of `net.Listen`
pub record Script : Type 0 where
  pub ended : Bool
  pub listen : Option Error
  pub stop : Stop

-- `receive_call` is the receive of what `Serve` returned, and `cancel_call` cancels the context of the
-- deliveries.
pub data Call : Type 0 where
  listen_call serve_call shutdown_call close_call receive_call cancel_call : Call

pub record Run : Type 0 where
  pub calls : List Call
  pub result : Option Error

-- the result of `Serve`, where http.ErrServerClosed is none
unfoldable pub serve_result : Option Error → Option Error
serve_result none = none
serve_result (some e) = if is server_closed e then none else some e

unfoldable pub run_shutdown : Option Error → Option Error → Option Error → Run
unfolding serve_result
run_shutdown none close serve = record {
  calls = shutdown_call ∷ receive_call ∷ [];
  result = serve_result serve;
}
run_shutdown (some e) close serve = record {
  calls = shutdown_call ∷ close_call ∷ [];
  result = join_two (some (wrap (codes "graceful HTTP shutdown: ") e)) close;
}

unfoldable pub run_stop : Stop → Run
unfolding run_shutdown
run_stop (served e) = record { calls = receive_call ∷ []; result = serve_result e }
run_stop (context_done shutdown close serve) = run_shutdown shutdown close serve

unfoldable pub run_listening : Text → Stop → Option Error → Run
unfolding run_stop
run_listening address stop (some e) = record {
  calls = listen_call ∷ [];
  result = some (wrap (codes "listen on " ++ (address ++ codes ": ")) e);
}
run_listening address stop none =
    let r = run_stop stop in record r { calls = listen_call ∷ serve_call ∷ r.calls }

-- Run
unfoldable pub run : Text → Script → Run
unfolding run_listening
run address s =
    if s.ended then record { calls = []; result = none } else run_listening address s.stop s.listen

unfoldable pub http_result : Option Error → Option Error
http_result none = none
http_result (some e) = some (wrap (codes "run HTTP server: ") e)

-- The service that the command `serve` runs. Its deliveries have a context that the end of the
-- service's own does not cancel.
unfoldable pub http_service : Text → Script → Run
unfolding run http_result
http_service address s =
    let r = run address s in
    record { calls = r.calls ++ cancel_call ∷ []; result = http_result r.result }
