-- ===== src/Cli/Serve/Tests.antt =====
-- root.go: the command `serve` at a concrete configuration.
use gatus_qqbot.Base.{ℕ, get_elem?, List, false, [], ◌∷◌, ◌++◌, none, some, ◌⊎◌, inr, ◌≡◌, refl}
use gatus_qqbot.Cli.Serve.{
  World, value_of, limit_of, handler_options, plan_of, run_client, with_logger, with_validity,
  with_config, serve_command, set_default_logger, request_token, run_services,
}
use gatus_qqbot.Cli.Serve.Started.{IsRefused, IsStarted, serve_command-IsStarted}
use gatus_qqbot.Cli.Serve.Concurrent.{sender_of, IsDelivered, accepted-IsDelivered}
use gatus_qqbot.Cli.Serve.Forwarded.{
  handled, IsForwarded, handled-IsForwarded, sending, IsServedTo, accepted_served,
}
use gatus_qqbot.Config.{
  pos, is_below, is_above, Config, Parsers, defaults, append_error, check_required,
  validate_credentials, has_any, valid_http_path, parses, is_loopback_address, positive_duration,
  duration_error, validate_target, validate_log, has_key, check_target, seen_after, check_targets,
}
use gatus_qqbot.Config.Accepted.{IsServed, validate_serve_iff}
use gatus_qqbot.Config.Load.{load, on_decoded}
use gatus_qqbot.Config.Serve.{check_server, check_qq, serve_errors, validate_serve}
use gatus_qqbot.Errors.{join_errors, message}
use gatus_qqbot.Gatus.{
  format_text, multi_line, with_prefix, truncate, text_metadata, metadata_of, state_of, unbracket,
}
use gatus_qqbot.Logging.{text_format, level_of, format_of, with_format, with_level, new_logger}
use gatus_qqbot.Qqbot.Client.{
  configure_sdk, after_token, authenticate, from_context, new_client, current_api_domain,
}
use gatus_qqbot.Qqbot.Queue.{
  returned, Event, proceed, round, admit, take_gate, loop, loop_pass, act, commit, step_process,
  step, run, init,
}
use gatus_qqbot.Qqbot.Sender.{
  Round, method_of, call_of, post_error, pass, pass_from, pass_posted, deliver_from, deliver,
  delivery_result, send,
}
use gatus_qqbot.Server.Handler.{
  Request, Env, failed, serve, alert, deliver as hand_over, prepare, prepare_body, prepare_text,
  prepare_formatted, authorized, supported, read_all, answer, info,
}
use gatus_qqbot.Strings.{
  Text, codes, text_eq, is_empty, is_space, trim_left, trim_right, trim_space, has_prefix, size,
  unit_size, rune_to_lower, to_lower, to_upper, rune_fold, equal_fold, valid_string, replace_all,
  replace_from, split, cons_first,
}

-- Every path is clean and parses, one address is loopback, and every duration is a second.
abbrev parsers : Parsers
parsers = record {
  clean = (λ s. s);
  parse_request_uri = (λ s. none);
  is_loopback_ip = (λ s. text_eq s (codes "127.0.0.1"));
  parse_duration = (λ s. inr (pos 1_000_000_000));
}

-- a configuration that listens on every address, with a token
abbrev config : Config
config = record defaults {
  server = record (defaults.server) { address = []; auth_token = codes "s" };
  qq = record (defaults.qq) {
    app_id = codes "1";
    app_secret = codes "x";
    targets = record { name = []; target_type = codes "group"; id = codes "g" } ∷ [];
  };
}

config-IsServed : IsServed parsers config
unfolding validate_serve serve_errors check_server check_qq check_targets check_target seen_after
    append_error check_required validate_credentials has_any valid_http_path parses
    is_loopback_address positive_duration duration_error validate_target validate_log has_key
    is_below is_above defaults join_errors text_eq is_empty is_space trim_left trim_right trim_space
    has_prefix rune_to_lower to_lower rune_fold equal_fold
config-IsServed = (validate_serve_iff parsers config).0 refl

abbrev world : World
world = record {
  decode = λ path c. inr (config, []);
  parsers = parsers;
  sdk = record {
    api_domain = codes "https://api.sgroup.qq.com";
    token_domain = codes "https://bots.qq.com";
    configured = false;
  };
  authentication = record { before = none; token = none; after = none };
  services = λ plan. none;
}

token_domain_is_current :
    (serve_command world (codes "config.toml")).actions
    ≡ set_default_logger (record { level = info; format = text_format })
      ∷ request_token
          (record { domain = current_api_domain; app_id = codes "1"; app_secret = codes "x" })
      ∷ run_services
          (plan_of parsers config (record { app_id = codes "1"; timeout = pos 1_000_000_000 }))
      ∷ []
unfolding serve_command with_config with_validity with_logger run_client load on_decoded new_logger
    with_level with_format level_of format_of new_client from_context authenticate configure_sdk
    after_token value_of validate_serve serve_errors check_server check_qq check_targets
    check_target seen_after append_error check_required validate_credentials has_any valid_http_path
    parses is_loopback_address positive_duration duration_error validate_target validate_log has_key
    is_below is_above defaults join_errors text_eq is_empty is_space trim_left trim_right trim_space
    has_prefix rune_to_lower to_lower rune_fold equal_fold
token_domain_is_current = refl

serve_command-IsStarted_example :
    IsRefused (serve_command world (codes "config.toml"))
    ⊎ IsStarted world (codes "config.toml") (serve_command world (codes "config.toml"))
serve_command-IsStarted_example = serve_command-IsStarted world (codes "config.toml")

abbrev env : Env
env = record {
  parse_media_type = λ t. some (record { media_type = t; charset = [] });
  decode_alert = λ b n. failed (message []);
  decode_more = λ b n. none;
  send = λ timeout t. none;
}

abbrev request : Request
request = record {
  url_path = codes "/api/v1/gatus/alerts";
  method = codes "POST";
  authorization = codes "Bearer s";
  content_type = codes "text/plain";
  body = record { content = codes "up"; failure = none };
}

abbrev quiet : ℕ → Round
quiet i = record { before = none; posted = none; after = none }

sent_up : (handled parsers config env request).sent ≡ (codes "[Gatus]" ++ 10 ∷ codes "up") ∷ []
unfolding handler_options limit_of value_of positive_duration is_below serve alert hand_over prepare
    prepare_body prepare_text prepare_formatted authorized supported read_all size unit_size text_eq
    is_empty to_lower format_text valid_string multi_line with_prefix truncate trim_space trim_left
    trim_right is_space replace_all replace_from has_prefix text_metadata metadata_of state_of
    unbracket split cons_first to_upper defaults
sent_up = refl

handled-IsForwarded_example :
    IsForwarded parsers config env request (handled parsers config env request)
handled-IsForwarded_example =
    handled-IsForwarded parsers config env request config-IsServed (λ h. cc sent_up)

accepted_served_example :
    IsServedTo parsers config env request quiet
      (handled parsers config (sending env config none quiet) request)
unfolding handler_options limit_of value_of positive_duration is_below serve alert hand_over prepare
    prepare_body prepare_text prepare_formatted authorized supported read_all size unit_size text_eq
    is_empty to_lower format_text valid_string multi_line with_prefix truncate trim_space trim_left
    trim_right is_space replace_all replace_from has_prefix text_metadata metadata_of state_of
    unbracket split cons_first to_upper defaults answer send delivery_result deliver deliver_from
    pass pass_from pass_posted method_of call_of post_error join_errors
accepted_served_example = accepted_served parsers config env request none quiet refl

-- the request's call of `Send`, and another one that waits for the gate
abbrev contents : List Text
contents = (codes "[Gatus]" ++ 10 ∷ codes "up") ∷ codes "other" ∷ []

abbrev events : List (ℕ × Event)
events =
    (0, proceed)
    ∷ (1, proceed)
    ∷ (0, proceed)
    ∷ (1, proceed)
    ∷ (0, proceed)
    ∷ (1, proceed)
    ∷ (0, proceed)
    ∷ (0, round (quiet 0))
    ∷ []

returned_up :
    get_elem? (run (sender_of config) (init contents) events).processes 0
    ≡ some (record { content = codes "[Gatus]" ++ 10 ∷ codes "up"; stage = returned none })
unfolding run step step_process commit act admit take_gate loop loop_pass pass pass_from pass_posted
    method_of call_of post_error text_eq join_errors limit_of defaults
returned_up = refl

accepted-IsDelivered_example :
    IsDelivered (sender_of config) contents events 0 (codes "[Gatus]" ++ 10 ∷ codes "up")
unfolding handler_options limit_of value_of positive_duration is_below serve alert hand_over prepare
    prepare_body prepare_text prepare_formatted authorized supported read_all size unit_size text_eq
    is_empty to_lower format_text valid_string multi_line with_prefix truncate trim_space trim_left
    trim_right is_space replace_all replace_from has_prefix text_metadata metadata_of state_of
    unbracket split cons_first to_upper defaults answer
accepted-IsDelivered_example =
    accepted-IsDelivered parsers config env request contents events 0 _ none returned_up refl refl
