-- ===== src/Server/Life/Tests.antt =====
-- server.go at concrete scripts.
use gatus_qqbot.Base.{false, [], ◌∷◌, Option, none, some, ◌≡◌, refl}
use gatus_qqbot.Errors.{
  Error, sentinel, wrap, deadline_exceeded, server_closed, is, same_sentinel, join_two,
}
use gatus_qqbot.Server.Life.{
  context_done, Script, listen_call, serve_call, shutdown_call, close_call, receive_call,
  cancel_call, serve_result, run_shutdown, run_stop, run_listening, run, http_result, http_service,
}
use gatus_qqbot.Server.Life.Shutdown.{IsServiceEnd, http_service-IsServiceEnd}
use gatus_qqbot.Strings.{codes}

abbrev closed : Option Error
closed = some (sentinel server_closed)

abbrev graceful : Script
graceful = record { ended = false; listen = none; stop = context_done none none closed }

abbrev forced : Script
forced = record graceful { stop = context_done (some (sentinel deadline_exceeded)) none closed }

shuts_down : http_service (codes ":80") graceful ≡ record {
  calls = listen_call ∷ serve_call ∷ shutdown_call ∷ receive_call ∷ cancel_call ∷ [];
  result = none;
}
unfolding http_service run run_listening run_stop run_shutdown serve_result http_result is
    same_sentinel
shuts_down = refl

closes : http_service (codes ":80") forced ≡ record {
  calls = listen_call ∷ serve_call ∷ shutdown_call ∷ close_call ∷ cancel_call ∷ [];
  result = some (
      wrap
        (codes "run HTTP server: ")
        (wrap (codes "graceful HTTP shutdown: ") (sentinel deadline_exceeded)));
}
unfolding http_service run run_listening run_stop run_shutdown http_result join_two
closes = refl

http_service-IsServiceEnd_example : IsServiceEnd forced (http_service (codes ":80") forced)
http_service-IsServiceEnd_example = http_service-IsServiceEnd (codes ":80") forced
