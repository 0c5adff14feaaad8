-- ===== src/Qqbot/Gateway/Discovery/Tests.antt =====
-- The start of the gateway at an address that QQ answers.
use gatus_qqbot.Base.{List, [], ◌∷◌, ◌++◌, none, some, true, false, ◌≡◌, refl, inr}
use gatus_qqbot.Qqbot.Gateway.{
  session_started, session_failed, failed_state, is_current, on_ready, accept_event, ready_accepted,
  ready_state,
}
use gatus_qqbot.Qqbot.Gateway.Discovery.{
  WebsocketAp, Api, Botgo, discover, begin, started, on_body, on_url, on_parsed, on_discovered,
  with_intents, run_started, run,
}
use gatus_qqbot.Qqbot.Gateway.Discovery.Returned.{IsReturn, run-IsReturn}
use gatus_qqbot.Qqbot.Gateway.Supervisor.{
  Event, select_timer, not_recovered, step, run_select, select, on_state_changed, after_change,
  rearmed, arm, recovery_time_remaining, on_timer, after_timer, is_due,
}
use gatus_qqbot.Qqbot.Gateway.Supervisor.{run as run_loop}
use gatus_qqbot.Qqbot.Gateway.Tests.{config, outage, lost}
use gatus_qqbot.Qqbot.Gateway.Discovery.Found.{begin-IsReady, IsReady}
use gatus_qqbot.Strings.{Text, codes, text_eq, is_empty}

abbrev gateway_url : Text
gateway_url = codes "wss://api.sgroup.qq.com/websocket"

abbrev pub api : Api
api = record {
  transport = λ t. inr (codes "{}");
  decode_url = λ t. inr gateway_url;
  parse_url = λ t.
      some (record { scheme = codes "wss"; host = codes "api.sgroup.qq.com"; has_user = false });
}

abbrev pub botgo : Botgo
botgo = record {
  intents = 33554432;
  group_messages = 33554432;
  has_factory = true;
  check_session_limit = λ ap. none;
  calc_interval = λ n. 2000000000;
}

abbrev pub ap : WebsocketAp
ap = record { url = gateway_url; shards = 1; total = 1; remaining = 1; max_concurrency = 1 }

pub begins : begin false api botgo ≡ started ap
unfolding begin discover text_eq is_empty
begins = refl

begin-IsReady_example : IsReady false api botgo ap
begin-IsReady_example = begin-IsReady false api botgo ap begins

-- the outage ends with the timer
abbrev timed_out : List Event
timed_out = outage ++ select_timer 130 ∷ []

run-IsReturn_example :
    IsReturn false api botgo config timed_out (some (not_recovered config (some lost)))
unfolding run run_started begin discover on_body on_url on_parsed on_discovered with_intents text_eq
    is_empty run_loop step run_select select on_state_changed after_change rearmed arm
    recovery_time_remaining session_started session_failed failed_state is_current on_ready
    accept_event ready_accepted ready_state on_timer after_timer is_due
run-IsReturn_example = run-IsReturn false api botgo config timed_out _ refl
