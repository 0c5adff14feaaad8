-- ===== src/Config.antt =====
-- internal/config/config.go: the configuration and its validation. The file is decoded by a TOML
-- library; the decoded configuration is where the model begins.
pub mod Serve
pub mod Load
pub mod Accepted
mod Tests
use gatus_qqbot.Base.{
  ℕ, zero, suc, ◌+◌, ◌/◌, ◌%◌, Bool, true, false, ◌&&◌, ◌||◌, not, List, [], ◌∷◌, ◌++◌, Option,
  none, some, ltb, leb, ◌==◌, if◌then◌else◌, ◌⊎◌, inl, inr,
}
use gatus_qqbot.Errors.{Error, message, wrap, join_errors}
use gatus_qqbot.Strings.{
  Text, codes, newline, carriage_return, space, text_eq, is_empty, trim_space, has_prefix, to_lower,
  equal_fold,
}

-- Go's int and int64, as they are decoded
pub data ℤ : Type 0 where
  pos negsuc : ℕ → ℤ

-- z < n
unfoldable pub is_below : ℤ → ℕ → Bool
is_below (pos k) n = ltb k n
is_below (negsuc k) n = true

-- n < z
unfoldable pub is_above : ℤ → ℕ → Bool
is_above (pos k) n = ltb n k
is_above (negsuc k) n = false

pub record ServerConfig : Type 0 where
  pub address : Text
  pub port : ℤ
  pub alert_path : Text
  pub auth_token : Text
  pub max_body_bytes : ℤ
  pub shutdown_timeout : Text

pub record TargetConfig : Type 0 where
  pub name : Text
  pub target_type : Text
  pub id : Text

pub record QqConfig : Type 0 where
  pub app_id : Text
  pub app_secret : Text
  pub request_timeout : Text
  pub delivery_timeout : Text
  pub max_pending_alerts : ℤ
  pub gateway_ready_timeout : Text
  pub targets : List TargetConfig

pub record MessageConfig : Type 0 where
  pub prefix : Text
  pub max_length : ℤ

pub record LogConfig : Type 0 where
  pub level : Text
  pub format : Text

pub record Config : Type 0 where
  pub server : ServerConfig
  pub qq : QqConfig
  pub message : MessageConfig
  pub log : LogConfig

-- path.Clean; the error of url.ParseRequestURI; whether net.ParseIP gives a loopback address; and
-- time.ParseDuration, in nanoseconds
pub record Parsers : Type 0 where
  pub clean : Text → Text
  pub parse_request_uri : Text → Option Error
  pub is_loopback_ip : Text → Bool
  pub parse_duration : Text → Error ⊎ ℤ

unfoldable pub defaults : Config
defaults = record {
  server = record {
    address = codes "127.0.0.1";
    port = pos 8080;
    alert_path = codes "/api/v1/gatus/alerts";
    auth_token = [];
    max_body_bytes = pos 65536;
    shutdown_timeout = codes "10s";
  };
  qq = record {
    app_id = [];
    app_secret = [];
    request_timeout = codes "10s";
    delivery_timeout = codes "1m0s";
    max_pending_alerts = pos 64;
    gateway_ready_timeout = codes "30s";
    targets = [];
  };
  message = record { prefix = codes "[Gatus]"; max_length = pos 1800 };
  log = record { level = codes "info"; format = codes "text" };
}

-- a check that may append an error before the later ones
abbrev pub check : Bool → Error → List Error → List Error
check failed e rest = if failed then e ∷ rest else rest

unfoldable pub append_error : Option Error → List Error → List Error
append_error none rest = rest
append_error (some e) rest = e ∷ rest

abbrev pub is_blank : Text → Bool
is_blank s = is_empty (trim_space s)

abbrev pub is_padded : Text → Bool
is_padded s = not (text_eq s (trim_space s))

abbrev pub rule : Text → Text → Error
rule name t = message (name ++ t)

-- a field that must not be blank or padded
unfoldable pub check_required : Text → Text → List Error → List Error
check_required name s rest =
    if is_blank s
    then rule name (codes " is required") ∷ rest
    else check (is_padded s) (rule name (codes " must not have surrounding whitespace")) rest

unfoldable pub validate_credentials : QqConfig → Option Error
unfolding check_required
validate_credentials q = join_errors (
    check_required (codes "qq.app_id") q.app_id
      (check_required (codes "qq.app_secret") q.app_secret []))

-- strings.ContainsAny
unfoldable pub has_any : (ℕ → Bool) → Text → Bool
has_any p [] = false
has_any p (c ∷ s) = p c || has_any p s

abbrev pub is_newline : ℕ → Bool
is_newline c = (c == carriage_return) || (c == newline)

-- the characters ? # { } space, tab and those of a newline
abbrev pub is_excluded : ℕ → Bool
is_excluded c =
    (c == b'?')
    || (c == b'#')
    || (c == b'{')
    || (c == b'}')
    || (c == space)
    || (c == 9)
    || is_newline c

unfoldable pub parses : Option Error → Bool
parses none = true
parses (some e) = false

unfoldable pub valid_http_path : Parsers → Text → Bool
unfolding has_any parses
valid_http_path p value =
    not (
      text_eq value (codes "/")
      || not (has_prefix (codes "/") value)
      || not (text_eq value (p.clean value))
      || has_any is_excluded value)
    && parses (p.parse_request_uri value)

unfoldable pub is_loopback_address : Parsers → Text → Bool
is_loopback_address p value = equal_fold value (codes "localhost") || p.is_loopback_ip value

unfoldable pub positive_duration : Text → Error ⊎ ℤ → Error ⊎ ℤ
positive_duration name (inl e) = inl (wrap (name ++ codes " must be a duration: ") e)
positive_duration name (inr d) =
    if is_below d 1 then inl (rule name (codes " must be positive")) else inr d

unfoldable pub duration_error : Error ⊎ ℤ → Option Error
duration_error (inl e) = some e
duration_error (inr d) = none

abbrev pub is_channel : Text → Bool
is_channel t = text_eq t (codes "channel")

abbrev pub is_group : Text → Bool
is_group t = text_eq t (codes "group")

abbrev pub is_user : Text → Bool
is_user t = text_eq t (codes "user")

abbrev pub known_type : Text → Bool
known_type t = is_channel t || is_group t || is_user t

unfoldable pub validate_target : TargetConfig → Option Error
unfolding check_required
validate_target t = join_errors (
    check (not (known_type t.target_type)) (message (codes "type must be channel, group, or user"))
      (check_required (codes "id") t.id (
        check (is_padded t.name) (message (codes "name must not have surrounding whitespace")) [])))

unfoldable pub validate_log : LogConfig → Option Error
validate_log c =
    let level = to_lower c.level in
    let format = to_lower c.format in
    join_errors (
      check
        (not (
          text_eq level (codes "debug")
          || text_eq level (codes "info")
          || text_eq level (codes "warn")
          || text_eq level (codes "error")))
        (message (codes "log.level must be debug, info, warn, or error"))
        (check (not (text_eq format (codes "text") || text_eq format (codes "json")))
          (message (codes "log.format must be text or json")) []))

-- a number in decimal; `fuel` above the number is enough
unfoldable pub digits : ℕ → ℕ → Text → Text
digits zero n acc = acc
digits (suc fuel) n acc = elim (ltb n 10) [
  | true ↦ (48 + n) ∷ acc
  | false ↦ digits fuel (n / 10) ((48 + n % 10) ∷ acc)
]

abbrev pub decimal : ℕ → Text
decimal n = digits (suc n) n []

unfoldable pub int_text : ℤ → Text
int_text (pos n) = decimal n
int_text (negsuc n) = b'-' ∷ decimal (suc n)

abbrev pub target_prefix : ℕ → Text
target_prefix i = codes "qq.targets[" ++ (decimal i ++ codes "]: ")

abbrev pub target_key : TargetConfig → Text
target_key t = t.target_type ++ (0 ∷ t.id)

-- whether the map `seen` has a key
unfoldable pub has_key : List Text → Text → Bool
has_key [] k = false
has_key (x ∷ xs) k = text_eq x k || has_key xs k

-- The id is printed without the escapes of %q.
abbrev pub duplicate : ℕ → TargetConfig → Error
duplicate i t = message (
    codes "qq.targets["
    ++ (decimal i
        ++ (codes "]: duplicate "
            ++ (t.target_type ++ (codes " target \"" ++ (t.id ++ codes "\""))))))

-- What one target appends, and whether its key is added to `seen`.
unfoldable pub check_target : ℕ → List Text → TargetConfig → Option Error → List Error → List Error
unfolding has_key
check_target i seen t (some e) rest = wrap (target_prefix i) e ∷ rest
check_target i seen t none rest = check (has_key seen (target_key t)) (duplicate i t) rest

unfoldable pub seen_after : List Text → TargetConfig → Option Error → List Text
seen_after seen t (some e) = seen
seen_after seen t none = target_key t ∷ seen

-- the loop over the targets
unfoldable pub check_targets : ℕ → List Text → List TargetConfig → List Error → List Error
unfolding check_target seen_after
check_targets i seen [] rest = rest
check_targets i seen (t ∷ ts) rest =
    check_target i seen t (validate_target t)
      (check_targets (suc i) (seen_after seen t (validate_target t)) ts rest)

abbrev pub has_no_targets : List TargetConfig → Bool
has_no_targets [] = true
has_no_targets (t ∷ ts) = false

abbrev pub timeout_error : Parsers → Text → Text → Option Error
timeout_error p name s = duration_error (positive_duration name (p.parse_duration s))
