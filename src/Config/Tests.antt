-- ===== src/Config/Tests.antt =====
-- config.go at concrete configurations.
use gatus_qqbot.Base.{List, [], ◌∷◌, none, some, inr, ◌≡◌, ◌↔◌, refl}
use gatus_qqbot.Config.{
  pos, is_below, is_above, TargetConfig, Config, Parsers, defaults, append_error, check_required,
  validate_credentials, has_any, valid_http_path, parses, is_loopback_address, positive_duration,
  duration_error, validate_target, validate_log, has_key, check_target, seen_after, check_targets,
  digits,
}
use gatus_qqbot.Config.Accepted.{IsServed, validate_serve_iff}
use gatus_qqbot.Config.Serve.{check_server, check_qq, serve_errors, validate_serve}
use gatus_qqbot.Errors.{message, join_errors, join_two}
use gatus_qqbot.Strings.{
  Text, codes, text_eq, is_empty, is_space, trim_left, trim_right, trim_space, has_prefix,
  rune_to_lower, to_lower, rune_fold, equal_fold,
}

-- Every path is clean and parses, one address is loopback, and every duration is a second.
abbrev parsers : Parsers
parsers = record {
  clean = (λ s. s);
  parse_request_uri = (λ s. none);
  is_loopback_ip = (λ s. text_eq s (codes "127.0.0.1"));
  parse_duration = (λ s. inr (pos 1_000_000_000));
}

abbrev group_of : Text → TargetConfig
group_of id = record { name = []; target_type = codes "group"; id = id }

abbrev config_of : List TargetConfig → Config
config_of ts = record defaults {
  qq = record (defaults.qq) { app_id = codes "1"; app_secret = codes "s"; targets = ts };
}

accepted :
    validate_serve parsers (config_of (group_of (codes "a") ∷ group_of (codes "b") ∷ [])) ≡ none
unfolding validate_serve serve_errors check_server check_qq check_targets check_target seen_after
    append_error check_required validate_credentials has_any valid_http_path parses
    is_loopback_address positive_duration duration_error validate_target validate_log has_key
    is_below is_above defaults join_errors text_eq is_empty is_space trim_left trim_right trim_space
    has_prefix rune_to_lower to_lower rune_fold equal_fold
accepted = refl

twice_refused :
    validate_serve parsers (config_of (group_of (codes "a") ∷ group_of (codes "a") ∷ []))
    ≡ some (message (codes "qq.targets[1]: duplicate group target \"a\""))
unfolding validate_serve serve_errors check_server check_qq check_targets check_target seen_after
    append_error check_required validate_credentials has_any valid_http_path parses
    is_loopback_address positive_duration duration_error validate_target validate_log has_key
    is_below is_above defaults join_errors join_two text_eq is_empty is_space trim_left trim_right
    trim_space has_prefix rune_to_lower to_lower rune_fold equal_fold digits
twice_refused = refl

validate_serve_iff_example :
    (validate_serve parsers (config_of (group_of (codes "a") ∷ [])) ≡ none)
    ↔ IsServed parsers (config_of (group_of (codes "a") ∷ []))
validate_serve_iff_example = validate_serve_iff parsers (config_of (group_of (codes "a") ∷ []))
