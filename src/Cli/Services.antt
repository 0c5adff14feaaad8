-- ===== src/Cli/Services.antt =====
-- internal/cli/services.go: `runServeServices` beside the two services that it starts, as a machine.
-- An event is the return of a service, the end of the context, the gateway becoming ready, or one
-- receive of `runServeServices`, with what follows it up to the next receive.
pub mod Account
pub mod Drain
pub mod Report
pub mod Ends
pub mod First
mod Tests
use gatus_qqbot.Base.{ℕ, Bool, true, false, List, [], ◌∷◌, ◌++◌, Option, none, some, if◌then◌else◌}
use gatus_qqbot.Errors.{Error, canceled, message, is, join_two}
use gatus_qqbot.Strings.{Text, codes}

pub data Name : Type 0 where
  qq_gateway http_server : Name

-- serviceResult
pub record ServiceResult : Type 0 where
  pub name : Name
  pub err : Option Error

unfoldable pub name_text : Name → Text
name_text qq_gateway = codes "QQ gateway"
name_text http_server = codes "HTTP server"

unfoldable pub service_failure : ServiceResult → Option Error
unfolding name_text
service_failure r = elim r.err [
  | none ↦ some (message (name_text r.name ++ codes " stopped unexpectedly"))
  | some e ↦ some e
]

unfoldable pub shutdown_error : Option Error → Option Error
shutdown_error none = none
shutdown_error (some e) = if is canceled e then none else some e

-- the goroutine of a service
pub data Service : Type 0 where
  idle active finished : Service

-- What is received, and what becomes of it: the gateway's result behind the end of the context or
-- behind the timeout; both results; or the second one, with what the first one gave.
pub data Wait : Type 0 where
  after_end after_timeout after_both : Wait
  after_first : Option Error → Wait

pub data Phase : Type 0 where
  starting serving : Phase
  waiting : Wait → Phase
  returned : Option Error → Phase

-- `cancelled` tells of the call of `cancel`, and `results` is the channel, of capacity 2.
pub record System : Type 0 where
  pub phase : Phase
  pub ctx_ended : Bool
  pub cancelled : Bool
  pub ready : Bool
  pub results : List ServiceResult
  pub gateway : Service
  pub http : Service

pub data Event : Type 0 where
  become_ready : Event
  service_return : Name → Option Error → Event
  end_context : Event
  take_ready take_result take_context take_timer : Event

-- the state in which the first `select` is reached
abbrev pub new_system : System
new_system = record {
  phase = starting;
  ctx_ended = false;
  cancelled = false;
  ready = false;
  results = [];
  gateway = active;
  http = idle;
}

-- a return, with the deferred `cancel`
abbrev pub return_with : System → Option Error → System
return_with y e = record y { phase = returned e; cancelled = true }

abbrev pub cancel_and : System → Wait → System
cancel_and y w = record y { phase = waiting w; cancelled = true }

unfoldable pub send_result : System → Name → Option Error → System
send_result y name e = record y { results = y.results ++ record { name = name; err = e } ∷ [] }

-- A service can return while it is at work.
unfoldable pub if_active : Service → System → System → System
if_active active z y = z
if_active _ z y = y

-- the goroutine of the gateway or of the server sends its result and ends
unfoldable pub on_return : System → Name → Option Error → System
unfolding send_result if_active
on_return y qq_gateway e =
    if_active y.gateway (send_result (record y { gateway = finished }) qq_gateway e) y
on_return y http_server e =
    if_active y.http (send_result (record y { http = finished }) http_server e) y

-- `timeout_text` is how the timeout is printed.
abbrev pub not_ready : Text → Error
not_ready timeout_text = message (codes "QQ gateway did not become ready within " ++ timeout_text)

-- a result that is received while a service waits for it
unfoldable pub on_result_waiting : Text → System → Wait → Option Error → System
on_result_waiting t y after_end e = return_with y (shutdown_error e)
on_result_waiting t y after_timeout e =
    return_with y (join_two (some (not_ready t)) (shutdown_error e))
on_result_waiting t y after_both e = cancel_and y (after_first (shutdown_error e))
on_result_waiting t y (after_first first) e = return_with y (join_two first (shutdown_error e))

-- what `parentStopped`, or the test of the first `select`, makes of a result
unfoldable pub classify : Bool → ServiceResult → Option Error
classify parent_stopped r = if parent_stopped then shutdown_error r.err else service_failure r

unfoldable pub on_result : Text → System → Phase → ServiceResult → System
unfolding on_result_waiting
on_result t y starting r = return_with y (classify y.ctx_ended r)
on_result t y serving r = cancel_and y (after_first (classify y.ctx_ended r))
on_result t y (waiting w) r = on_result_waiting t y w r.err
on_result t y (returned e) r = y

-- a receive from `results`
unfoldable pub receive : Text → System → List ServiceResult → System
unfolding on_result
receive t y [] = y
receive t y (r ∷ rs) = on_result t (record y { results = rs }) y.phase r

unfoldable pub on_ready : System → Phase → System
on_ready y starting = if y.ready then record y { phase = serving; http = active } else y
on_ready y _ = y

unfoldable pub on_context : System → Phase → System
on_context y starting = if y.ctx_ended then cancel_and y after_end else y
on_context y serving = if y.ctx_ended then cancel_and y after_both else y
on_context y _ = y

unfoldable pub on_timer : System → Phase → System
on_timer y starting = cancel_and y after_timeout
on_timer y _ = y

-- Nothing is received behind the return.
unfoldable pub on_take_result : Text → System → Phase → System
on_take_result t y (returned e) = y
on_take_result t y _ = receive t y y.results

-- An event that cannot happen changes nothing.
unfoldable pub step : Text → System → Event → System
step t y become_ready = record y { ready = true }
step t y (service_return name e) = on_return y name e
step t y end_context = record y { ctx_ended = true }
step t y take_ready = on_ready y y.phase
step t y take_result = on_take_result t y y.phase
step t y take_context = on_context y y.phase
step t y take_timer = on_timer y y.phase

unfoldable pub run : Text → System → List Event → System
run t y [] = y
run t y (e ∷ es) = run t (step t y e) es
