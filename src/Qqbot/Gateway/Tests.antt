-- ===== src/Qqbot/Gateway/Tests.antt =====
-- gateway.go at a short history: a session fails, and is opened again too late.
use gatus_qqbot.Base.{◌+◌, ◌≤◌, true, false, List, [], ◌∷◌, none, some, ◌≡◌, refl, arith}
use gatus_qqbot.Errors.{Error, message}
use gatus_qqbot.Qqbot.Gateway.{
  Gateway, Payload, LogLine, empty_resume, session_started, failed_state, is_current,
  session_failed, accept_event, record_sequence, ready_state, ready_accepted, on_ready,
  event_accepted, observe_event, group_open_id, on_group_message,
}
use gatus_qqbot.Qqbot.Gateway.Invariant.{IsSound}
use gatus_qqbot.Qqbot.Gateway.Supervisor.{
  Config, running, stopped, Event, session_start, session_fail, ready_event, select_manager,
  select_state_changed, select_timer, effective_timeout, recovery_time_remaining, new_system, arm,
  not_recovered, manager_result, on_manager, rearmed, after_change, on_state_changed, after_timer,
  on_timer, is_due, select, run_select, step, run,
}
use gatus_qqbot.Qqbot.Gateway.Supervisor.Patience.{gives_up_late}
use gatus_qqbot.Qqbot.Gateway.Supervisor.Stops.{session_state, fatal_is_final}
use gatus_qqbot.Qqbot.Gateway.Supervisor.Wakeup.{IsLive, reachable-IsLive}
use gatus_qqbot.Strings.{codes, is_empty}

abbrev pub config : Config
config = record { recovery_timeout = 30; timeout_text = codes "30ns" }

abbrev pub lost : Error
lost = message (codes "lost")

abbrev hello : Payload
hello = record { session = some 1; seq = 7; event_type = codes "READY" }

-- session 1 gets ready, fails at time 100, and its failure is seen at time 101
abbrev pub outage : List Event
outage =
    session_start 1 empty_resume
    ∷ ready_event (some hello)
        (some (record { session_id = codes "s"; username = codes "bot"; shard = 0 ∷ 1 ∷ [] }))
    ∷ select_state_changed 50
    ∷ session_fail 100 1 lost false false
    ∷ select_state_changed 101
    ∷ session_start 2 empty_resume
    ∷ session_fail 120 2 lost true false
    ∷ select_state_changed 121
    ∷ []

outage_watch :
    ((run config new_system outage).watch ≡ record { timer = some 130; generation = 1 })
    × ((run config new_system outage).result ≡ running)
    × ((run config new_system outage).ctx_ended ≡ false)
    × ((run config new_system outage).gateway.state.fatal_error ≡ none)
    × ((run config new_system outage).gateway.state.resume.last_seq ≡ 0)
unfolding run step run_select select on_state_changed after_change rearmed arm
    recovery_time_remaining session_started session_failed failed_state is_current on_ready
    accept_event ready_accepted ready_state
outage_watch = (refl, refl, refl, refl, refl)

gave_up_at_130 :
    (step config (run config new_system outage) (select_timer 130)).result
    ≡ stopped (some (not_recovered config (some lost)))
unfolding run step run_select select on_state_changed after_change rearmed arm
    recovery_time_remaining session_started session_failed failed_state is_current on_ready
    accept_event ready_accepted ready_state on_timer after_timer is_due
gave_up_at_130 = refl

manager_ended :
    (step config (run config new_system []) (select_manager none)).result
    ≡ stopped (some (message (codes "QQ gateway session manager stopped unexpectedly")))
unfolding run step run_select select on_manager manager_result
manager_ended = refl

group_id_logged :
    (on_group_message
      (run config new_system (session_start 1 empty_resume ∷ [])).gateway
      (some hello)
      (some ([], codes "g"))
      none).logged
    ≡ LogLine.group_message (codes "g") ∷ []
unfolding on_group_message group_open_id observe_event event_accepted accept_event record_sequence
    run step session_started is_empty
group_id_logged = refl

default_timeout : effective_timeout 0 ≡ 30_000_000_000
unfolding effective_timeout
default_timeout = refl

reachable-IsLive_example : IsLive (run config new_system outage)
reachable-IsLive_example = reachable-IsLive config outage

gives_up_late_example : 30 + (run config new_system outage).gateway.state.disconnected_at ≤ 130
gives_up_late_example =
    gives_up_late config outage _ 130 _ (omega arith) refl outage_watch.1 outage_watch.2
      outage_watch.3 gave_up_at_130

-- session 1 has failed for good
abbrev ruined : Gateway
ruined = record {
  state = record {
    current_session = some 1;
    current_session_open = false;
    resume = empty_resume;
    recovering = true;
    recovery_generation = 1;
    disconnected_at = 5;
    last_error = some lost;
    fatal_error = some lost;
  };
  ready = true;
  state_changed = true;
}

ruined-IsSound : IsSound ruined.state
ruined-IsSound = ground arith

fatal_is_final_example : session_state ruined (session_start 2 empty_resume) ≡ ruined.state
fatal_is_final_example = fatal_is_final ruined (session_start 2 empty_resume) ruined-IsSound refl
