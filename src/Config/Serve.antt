-- ===== src/Config/Serve.antt =====
-- config.go: ValidateServe.
use gatus_qqbot.Base.{String, ◌&&◌, ◌||◌, not, List, [], Option}
use gatus_qqbot.Config.{
  is_below, is_above, ServerConfig, Config, Parsers, check, append_error, is_blank, is_padded,
  validate_credentials, has_any, is_newline, valid_http_path, is_loopback_address, validate_log,
  check_targets, has_no_targets, timeout_error,
}
use gatus_qqbot.Errors.{Error, message, join_errors}
use gatus_qqbot.Strings.{codes}

abbrev pub serve_rule : String → Error
serve_rule s = message (codes s)

-- the checks of the section `server`
unfoldable pub check_server : Parsers → ServerConfig → List Error → List Error
check_server p s rest =
    check (has_any is_newline s.address) (serve_rule "server.address must not contain newlines") (
      check (is_padded s.address) (serve_rule "server.address must not have surrounding whitespace")
        (check (is_padded s.auth_token)
          (serve_rule "server.auth_token must not have surrounding whitespace")
          (check (is_blank s.auth_token && not (is_loopback_address p s.address))
            (serve_rule "server.auth_token is required when server.address is not loopback")
            (check (is_below s.port 1 || is_above s.port 65535)
              (serve_rule "server.port must be between 1 and 65535")
              (check (not (valid_http_path p s.alert_path))
                (serve_rule "server.alert_path must be an absolute, clean HTTP path")
                (check (is_below s.max_body_bytes 1)
                  (serve_rule "server.max_body_bytes must be positive")
                  (append_error
                    (timeout_error p (codes "server.shutdown_timeout") s.shutdown_timeout)
                    rest)))))))

-- the checks of the section `qq` before those of its targets, and that of the message's length
unfoldable pub check_qq : Parsers → Config → List Error → List Error
check_qq p c rest =
    append_error (timeout_error p (codes "qq.request_timeout") c.qq.request_timeout) (
      append_error (timeout_error p (codes "qq.delivery_timeout") c.qq.delivery_timeout) (
        check (is_below c.qq.max_pending_alerts 0 || is_above c.qq.max_pending_alerts 10_000)
          (serve_rule "qq.max_pending_alerts must be between 0 and 10000")
          (append_error
            (timeout_error p (codes "qq.gateway_ready_timeout") c.qq.gateway_ready_timeout)
            (check (is_below c.message.max_length 64)
              (serve_rule "message.max_length must be at least 64") rest))))

unfoldable pub serve_errors : Parsers → Config → List Error
unfolding check_server check_qq
serve_errors p c = append_error (validate_credentials c.qq) (
    check_server p c.server (
      check_qq p c (
        check (has_no_targets c.qq.targets)
          (serve_rule "qq.targets must contain at least one destination")
          (check_targets 0 [] c.qq.targets (append_error (validate_log c.log) [])))))

-- ValidateServe
unfoldable pub validate_serve : Parsers → Config → Option Error
unfolding serve_errors
validate_serve p c = join_errors (serve_errors p c)
