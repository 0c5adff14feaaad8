-- ===== src/Qqbot/Websocket.antt =====
-- internal/qqbot/gateway_session.go: one attempt at a session. What the WebSocket client of BotGo does
-- in an attempt is given by a script.
pub mod Protocol
use gatus_qqbot.Base.{
  ℕ, suc, Bool, true, false, not, List, [], ◌∷◌, ◌++◌, Option, none, some, ◌==◌, if◌then◌else◌, ◌⊎◌,
  inl, inr,
}
use gatus_qqbot.Errors.{Error, message, wrap}
use gatus_qqbot.Qqbot.Gateway.{ResumableSession, empty_resume}
use gatus_qqbot.Strings.{Text, codes, is_empty}

-- How a call of the client ends.
pub data Outcome : Type 0 where
  returns : Option Error → Outcome
  panics : Text → Outcome

-- How the wait for the listener ends: by the end of the context with `ctx.Err()`, or by what
-- `Listening` does. `Listening` is called by a goroutine, so that an ended context may be met, and
-- the client be closed, before the call: the `Bool` tells whether the call comes before `Close`.
pub data Ending : Type 0 where
  context_done : Bool → Error → Ending
  listened : Outcome → Ending

-- What the calls of one client do, with `ctx.Err()` as it is read behind Connect and behind the
-- handshake. `identify` and `resume` are what the one or the other does.
pub record Client : Type 0 where
  pub connect : Outcome
  pub after_connect : Option Error
  pub identify : Outcome
  pub resume : Outcome
  pub after_handshake : Option Error
  pub ending : Ending

-- What `factory.New` and `client.Session` do; `created` has the address of the identity.
pub data Creation : Type 0 where
  creation_panics : Text → Creation
  no_client no_identity : Creation
  created : ℕ → Client → Creation

-- The calls of the client, in order. `Close` may panic, which is recovered from.
pub data ClientCall : Type 0 where
  connect_call identify_call resume_call listening_call close_call : ClientCall

-- the error of an attempt with the calls that it made
pub record Run : Type 0 where
  pub err : Option Error
  pub calls : List ClientCall

abbrev pub invalid_client : Error
invalid_client =
    message (codes "start QQ gateway session: BotGo returned an invalid WebSocket client")

-- newWebSocketAttempt
unfoldable pub new_websocket_attempt : Creation → Error ⊎ (ℕ × Client)
new_websocket_attempt (creation_panics t) =
    inl (message (codes "create BotGo WebSocket client: panic: " ++ t))
new_websocket_attempt no_client = inl invalid_client
new_websocket_attempt no_identity = inl invalid_client
new_websocket_attempt (created identity c) = inr (identity, c)

-- listenWebSocket
unfoldable pub listen_websocket : Outcome → Option Error
listen_websocket (returns e) = e
listen_websocket (panics t) =
    some (message (codes "listen with BotGo WebSocket client: panic: " ++ t))

-- the deferred recovery of runWebSocketAttempt, behind the calls made so far
abbrev pub recovered_run : List ClientCall → Text → Run
recovered_run calls t = record {
  err = some (message (codes "run BotGo WebSocket client: panic: " ++ t));
  calls = calls ++ close_call ∷ [];
}

abbrev pub closed_run : List ClientCall → Error → Run
closed_run calls e = record { err = some e; calls = calls ++ close_call ∷ [] }

-- The calls in the order in which they are made, the one of the goroutine among them even if it comes
-- after the return.
unfoldable pub run_listening : List ClientCall → Ending → Run
unfolding listen_websocket
run_listening calls (context_done true e) = closed_run (calls ++ listening_call ∷ []) e
run_listening calls (context_done false e) = record {
  err = some e;
  calls = calls ++ close_call ∷ listening_call ∷ [];
}
run_listening calls (listened o) = record {
  err = listen_websocket o;
  calls = calls ++ listening_call ∷ [];
}

-- the end of the context seen by a check of `ctx.Err()`, or what follows the check
unfoldable pub unless_ended : List ClientCall → Option Error → Run → Run
unless_ended calls none rest = rest
unless_ended calls (some e) rest = closed_run calls e

unfoldable pub run_handshake : List ClientCall → Client → Outcome → Run
unfolding run_listening unless_ended
run_handshake calls c (panics t) = recovered_run calls t
run_handshake calls c (returns (some e)) = closed_run calls e
run_handshake calls c (returns none) =
    unless_ended calls c.after_handshake (run_listening calls c.ending)

abbrev pub handshake_call : Bool → ClientCall
handshake_call resume = if resume then resume_call else identify_call

unfoldable pub run_connected : Client → Bool → Outcome → Run
unfolding run_handshake unless_ended
run_connected c resume (panics t) = recovered_run (connect_call ∷ []) t
run_connected c resume (returns (some e)) = record { err = some e; calls = connect_call ∷ [] }
run_connected c resume (returns none) = unless_ended (connect_call ∷ []) c.after_connect (
    run_handshake (connect_call ∷ handshake_call resume ∷ []) c
      (if resume then c.resume else c.identify))

-- runWebSocketAttempt
unfoldable pub run_websocket_attempt : Client → Bool → Run
unfolding run_connected
run_websocket_attempt c resume = run_connected c resume c.connect
