-- ===== src/Cli/Serve.antt =====
-- internal/cli/root.go: the command `serve`, from its configuration file to the services that it runs.
pub mod Plans
pub mod Started
pub mod Forwarded
pub mod Concurrent
mod Tests
use gatus_qqbot.Base.{
  ℕ, Bool, true, false, List, [], ◌∷◌, ◌++◌, map, Option, none, some, ◌⊎◌, inl, inr,
}
use gatus_qqbot.Config.{ℤ, pos, negsuc, TargetConfig, Config, Parsers}
use gatus_qqbot.Config.Load.{
  Decoder, load, listen_address, request_timeout, delivery_timeout, gateway_ready_timeout,
  shutdown_timeout,
}
use gatus_qqbot.Config.Serve.{validate_serve}
use gatus_qqbot.Errors.{Error, wrap}
use gatus_qqbot.Logging.{Logger, new_logger}
use gatus_qqbot.Qqbot.Client.{Sdk, Client, Authentication, TokenRequest, Made, new_client}
use gatus_qqbot.Server.Handler.{Options}
use gatus_qqbot.Strings.{Text, codes}

-- What the services are made of.
pub record Plan : Type 0 where
  pub client : Client
  pub targets : List TargetConfig
  pub max_pending_alerts : ℤ
  pub gateway_timeout : ℤ
  pub handler : Options
  pub address : Text
  pub shutdown_timeout : ℤ

pub data Action : Type 0 where
  set_default_logger : Logger → Action
  request_token : TokenRequest → Action
  run_services : Plan → Action

-- The file's decoder, the parsers of the configuration's texts, the variables of BotGo, what the first
-- authentication meets, and the result of the services.
pub record World : Type 0 where
  pub decode : Decoder
  pub parsers : Parsers
  pub sdk : Sdk
  pub authentication : Authentication
  pub services : Plan → Option Error

pub record Outcome : Type 0 where
  pub actions : List Action
  pub result : Option Error

-- `d, _ := …`: the duration, or 0
unfoldable pub value_of : Error ⊎ ℤ → ℤ
value_of (inl e) = pos 0
value_of (inr d) = d

-- A negative limit acts as 0 does: http.MaxBytesReader takes it for 0, a message is then not cut, and
-- the delivery timeout falls back to its default.
unfoldable pub limit_of : ℤ → ℕ
limit_of (pos n) = n
limit_of (negsuc n) = 0

unfoldable pub handler_options : Parsers → Config → Options
unfolding value_of limit_of
handler_options p c = record {
  alert_path = c.server.alert_path;
  auth_token = c.server.auth_token;
  max_body_bytes = limit_of c.server.max_body_bytes;
  message_prefix = c.message.prefix;
  message_max_runes = limit_of c.message.max_length;
  delivery_timeout = limit_of (value_of (delivery_timeout p c));
}

unfoldable pub plan_of : Parsers → Config → Client → Plan
unfolding handler_options
plan_of p c client = record {
  client = client;
  targets = c.qq.targets;
  max_pending_alerts = c.qq.max_pending_alerts;
  gateway_timeout = value_of (gateway_ready_timeout p c);
  handler = handler_options p c;
  address = listen_address c;
  shutdown_timeout = value_of (shutdown_timeout p c);
}

abbrev pub refuse : Error → Outcome
refuse e = record { actions = []; result = some e }

unfoldable pub run_client : World → Config → Error ⊎ Client → Outcome
unfolding plan_of
run_client w c (inl e) = refuse e
run_client w c (inr client) =
    let plan = plan_of w.parsers c client in
    record { actions = run_services plan ∷ []; result = w.services plan }

unfoldable pub with_logger : World → Config → Error ⊎ Logger → Outcome
unfolding run_client
with_logger w c (inl e) = refuse e
with_logger w c (inr l) =
    let made =
      new_client w.sdk w.authentication c.qq.app_id c.qq.app_secret
        (value_of (request_timeout w.parsers c)) in
    let rest = run_client w c made.result in
    record rest {
      actions = set_default_logger l ∷ (map request_token made.requests ++ rest.actions);
    }

unfoldable pub with_validity : World → Config → Option Error → Outcome
unfolding with_logger
with_validity w c (some e) = refuse (wrap (codes "validate config: ") e)
with_validity w c none = with_logger w c (new_logger c.log)

unfoldable pub with_config : World → Error ⊎ Config → Outcome
unfolding with_validity
with_config w (inl e) = refuse e
with_config w (inr c) = with_validity w c (validate_serve w.parsers c)

-- the command, with the path of its configuration
unfoldable pub serve_command : World → Text → Outcome
unfolding with_config
serve_command w path = with_config w (load w.decode path)
