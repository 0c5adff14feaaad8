-- ===== src/Server/Handler/Tests.antt =====
-- handler.go at concrete requests.
use gatus_qqbot.Base.{[], ◌∷◌, Option, none, some, ◌≡◌, ◌↔◌, refl}
use gatus_qqbot.Errors.{Error, sentinel, queue_full, deadline_exceeded, message, is}
use gatus_qqbot.Gatus.{
  format_text, multi_line, with_prefix, truncate, text_metadata, metadata_of, state_of, unbracket,
}
use gatus_qqbot.Server.Handler.{
  Options, Request, failed, Env, authorized, read_all, supported, prepare, prepare_body,
  prepare_text, prepare_formatted, answer, deliver, alert, serve,
}
use gatus_qqbot.Server.Handler.Effects.{
  IsAnswer, alert-IsAdmitted, alert_accepted_iff, alert-IsAnswer, alert-IsMade,
}
use gatus_qqbot.Server.Handler.Rejects.{IsAdmitted, IsMade}
use gatus_qqbot.Strings.{
  Text, codes, valid_string, size, unit_size, text_eq, is_empty, is_space, trim_left, trim_right,
  trim_space, replace_all, replace_from, has_prefix, split, cons_first, to_lower, to_upper,
}

abbrev options : Options
options = record {
  alert_path = codes "/alerts";
  auth_token = codes "s";
  max_body_bytes = 16;
  message_prefix = [];
  message_max_runes = 64;
  delivery_timeout = 1;
}

-- a service that knows plain text alone, and a sender with a given result
abbrev env : Option Error → Env
env result = record {
  parse_media_type = λ t. some (record { media_type = t; charset = [] });
  decode_alert = λ b n. failed (message []);
  decode_more = λ b n. none;
  send = λ timeout t. result;
}

abbrev request : Text → Request
request authorization = record {
  url_path = codes "/alerts";
  method = codes "POST";
  authorization = authorization;
  content_type = codes "text/plain";
  body = record { content = codes "up"; failure = none };
}

abbrev full : Option Error
full = some (sentinel queue_full)

sent_up : (alert options (env none) (request (codes "Bearer s"))).sent ≡ codes "up" ∷ []
unfolding alert deliver prepare prepare_body prepare_text prepare_formatted authorized supported
    read_all size unit_size text_eq is_empty to_lower format_text valid_string multi_line
    with_prefix truncate trim_space trim_left trim_right is_space replace_all replace_from
    has_prefix text_metadata metadata_of state_of unbracket split cons_first to_upper
sent_up = refl

sent_full : (alert options (env full) (request (codes "Bearer s"))).sent ≡ codes "up" ∷ []
unfolding alert deliver prepare prepare_body prepare_text prepare_formatted authorized supported
    read_all size unit_size text_eq is_empty to_lower format_text valid_string multi_line
    with_prefix truncate trim_space trim_left trim_right is_space replace_all replace_from
    has_prefix text_metadata metadata_of state_of unbracket split cons_first to_upper
sent_full = refl

wrong_token : (alert options (env none) (request (codes "Bearer x"))).response.status ≡ 401
unfolding alert deliver prepare authorized text_eq is_empty
wrong_token = refl

other_path :
    (serve (record options { alert_path = codes "/other" }) (env none) (request [])).response.status
    ≡ 404
unfolding serve text_eq
other_path = refl

too_late : (answer (some (sentinel deadline_exceeded))).status ≡ 504
unfolding answer is
too_late = refl

alert-IsAdmitted_example : IsAdmitted options (env none) (request (codes "Bearer s"))
alert-IsAdmitted_example =
    alert-IsAdmitted options (env none) (request (codes "Bearer s")) (λ e. cc (e, sent_up))

alert_accepted_iff_example :
    ((alert options (env none) (request (codes "Bearer s"))).response.status ≡ 202) ↔ (
      (t : Text) × ((alert options (env none) (request (codes "Bearer s"))).sent ≡ t ∷ [])
      × ((env none).send 1 t ≡ none))
alert_accepted_iff_example = alert_accepted_iff options (env none) (request (codes "Bearer s"))

alert-IsAnswer_example :
    IsAnswer full (alert options (env full) (request (codes "Bearer s"))).response
alert-IsAnswer_example =
    alert-IsAnswer options (env full) (request (codes "Bearer s")) (codes "up") sent_full

alert-IsMade_example : IsMade options (env none) (request (codes "Bearer s")) (codes "up")
alert-IsMade_example =
    alert-IsMade options (env none) (request (codes "Bearer s")) (codes "up") sent_up
