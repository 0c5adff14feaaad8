-- ===== src/Qqbot/Gateway/Supervisor.antt =====
-- gateway.go: the loop of `Run` beside the session manager and the event handlers, as a machine.
-- An event is one critical section of the manager's observer or of a handler, the end of the
-- context, or one round of the `select` in `Run`. The clock is read as an argument of the event.
pub mod Wakeup
pub mod Outage
pub mod Patience
pub mod Stops
pub mod Stopped
pub mod Ending
use gatus_qqbot.Base.{
  ℕ, ◌+◌, ◌-◌, Bool, true, false, ◌&&◌, not, List, [], ◌∷◌, ◌++◌, Option, none, some, ltb, leb,
  ◌==◌, if◌then◌else◌, is_some,
}
use gatus_qqbot.Errors.{Error, message, wrap}
use gatus_qqbot.Qqbot.Gateway.{
  ResumableSession, State, Gateway, Payload, ReadyData, Reaction, new_gateway, session_started,
  session_failed, on_ready, observe_event,
}
use gatus_qqbot.Strings.{Text, codes}

-- `recoveryTimeout`, and how it is printed
pub record Config : Type 0 where
  pub recovery_timeout : ℕ
  pub timeout_text : Text

abbrev pub default_recovery_timeout : ℕ
default_recovery_timeout = 30_000_000_000

-- newGateway; 0 stands for every duration that is not positive
unfoldable pub effective_timeout : ℕ → ℕ
effective_timeout t = if ltb 0 t then t else default_recovery_timeout

-- `recoveryTimer` by the time at which it fires, and `recoveryGeneration`
pub record Watch : Type 0 where
  pub timer : Option ℕ
  pub generation : ℕ

pub data Result : Type 0 where
  running : Result
  stopped : Option Error → Result

pub record System : Type 0 where
  pub gateway : Gateway
  pub watch : Watch
  pub ctx_ended : Bool
  pub result : Result

pub data Event : Type 0 where
  session_start : ℕ → ResumableSession → Event
  session_fail : ℕ → ℕ → Error → Bool → Bool → Event
  ready_event : Option Payload → Option ReadyData → Event
  other_event : Option Payload → Event
  end_context : Event
  select_context : Event
  select_manager : Option Error → Event
  select_state_changed : ℕ → Event
  select_timer : ℕ → Event

-- `recoveryTimeRemaining` at the time `now`
unfoldable pub recovery_time_remaining : ℕ → ℕ → ℕ → ℕ
recovery_time_remaining timeout disconnected_at now =
    let remaining = timeout + disconnected_at - now in if remaining == 0 then 1 else remaining

-- the state of `Run` when it starts the manager
abbrev pub new_system : System
new_system = record {
  gateway = new_gateway;
  watch = record { timer = none; generation = 0 };
  ctx_ended = false;
  result = running;
}

abbrev pub stop_with : System → Option Error → System
stop_with y e = record y { result = stopped e }

abbrev pub set_watch : System → Watch → System
set_watch y w = record y { watch = w }

abbrev pub cannot_reconnect : Error → Error
cannot_reconnect e = wrap (codes "QQ gateway cannot reconnect: ") e

-- `%w` prints an error that is nil like this
unfoldable pub not_recovered : Config → Option Error → Error
not_recovered c none =
    message (codes "QQ gateway did not recover within " ++ (c.timeout_text ++ codes ": %!w(<nil>)"))
not_recovered c (some e) =
    wrap (codes "QQ gateway did not recover within " ++ (c.timeout_text ++ codes ": ")) e

-- a new timer for the outage that the state tells of
unfoldable pub arm : Config → State → ℕ → Watch
arm c s now = record {
  timer = some (now + recovery_time_remaining c.recovery_timeout s.disconnected_at now);
  generation = s.recovery_generation;
}

unfoldable pub manager_result : Option Error → Option Error → Error
manager_result (some fatal) e = cannot_reconnect fatal
manager_result none none = message (codes "QQ gateway session manager stopped unexpectedly")
manager_result none (some e) = wrap (codes "run QQ gateway: ") e

-- the case of `errCh`
unfoldable pub on_manager : System → Option Error → System
on_manager y e =
    if y.ctx_ended
    then stop_with y none
    else stop_with y (some (manager_result y.gateway.state.fatal_error e))

unfoldable pub rearmed : Config → System → ℕ → System
rearmed c y now =
    if is_some y.watch.timer && (y.watch.generation == y.gateway.state.recovery_generation)
    then y
    else set_watch y (arm c y.gateway.state now)

unfoldable pub after_change : Config → System → ℕ → Option Error → System
after_change c y now (some fatal) = stop_with y (some (cannot_reconnect fatal))
after_change c y now none =
    if y.gateway.state.recovering
    then rearmed c y now
    else set_watch y (record (y.watch) { timer = none })

-- the case of `stateChanged`, which takes the token
unfoldable pub on_state_changed : Config → System → ℕ → System
on_state_changed c y now =
    let y' = record y { gateway = record (y.gateway) { state_changed = false } } in
    if y.ctx_ended then stop_with y' none else after_change c y' now y.gateway.state.fatal_error

unfoldable pub after_timer : Config → System → ℕ → Option Error → System
after_timer c y now (some fatal) = stop_with y (some (cannot_reconnect fatal))
after_timer c y now none =
    if not y.gateway.state.recovering
    then y
    else if y.watch.generation == y.gateway.state.recovery_generation
    then stop_with y (some (not_recovered c y.gateway.state.last_error))
    else set_watch y (arm c y.gateway.state now)

-- the case of `recoveryTimerC`
unfoldable pub on_timer : Config → System → ℕ → System
on_timer c y now =
    let y' = set_watch y (record (y.watch) { timer = none }) in
    if y.ctx_ended then stop_with y' none else after_timer c y' now y.gateway.state.fatal_error

-- whether the timer has fired by the time `now`
unfoldable pub is_due : Option ℕ → ℕ → Bool
is_due none now = false
is_due (some at) now = leb at now

-- the rounds of `select` that are possible, while `Run` has not returned
unfoldable pub select : Config → System → Event → System
select c y select_context = if y.ctx_ended then stop_with y none else y
select c y (select_manager e) = on_manager y e
select c y (select_state_changed now) =
    if y.gateway.state_changed then on_state_changed c y now else y
select c y (select_timer now) = if is_due y.watch.timer now then on_timer c y now else y
select c y _ = y

unfoldable pub run_select : Config → System → Event → Result → System
run_select c y e running = select c y e
run_select c y e (stopped r) = y

-- An event that cannot happen changes nothing.
unfoldable pub step : Config → System → Event → System
step c y (session_start identity resume) = record y {
  gateway = session_started y.gateway identity resume;
}
step c y (session_fail now identity e cannot_resume cannot_identify) = record y {
  gateway = (session_failed y.gateway now identity e cannot_resume cannot_identify).gateway;
}
step c y (ready_event p d) = record y { gateway = (on_ready y.gateway p d).gateway }
step c y (other_event p) = record y { gateway = (observe_event y.gateway p).gateway }
step c y end_context = record y { ctx_ended = true }
step c y select_context = run_select c y select_context y.result
step c y (select_manager e) = run_select c y (select_manager e) y.result
step c y (select_state_changed now) = run_select c y (select_state_changed now) y.result
step c y (select_timer now) = run_select c y (select_timer now) y.result

unfoldable pub run : Config → System → List Event → System
run c y [] = y
run c y (e ∷ es) = run c (step c y e) es
