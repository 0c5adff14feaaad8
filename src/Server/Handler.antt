-- ===== src/Server/Handler.antt =====
-- internal/server/handler.go: the handler of Gatus alerts. A call returns the response, the
-- messages that it handed to the sender, and the log records that it wrote.
-- A duration of 0 stands for every one that is not positive. What net/http, mime and encoding/json
-- make of a request, and the sender, are the functions of `Env`.
pub mod Rejects
pub mod Effects
mod Tests
use gatus_qqbot.Base.{
  ℕ, Bool, true, false, ◌&&◌, ◌||◌, not, List, [], ◌∷◌, ◌++◌, Option, none, some, ltb, leb, ◌==◌,
  if◌then◌else◌, is_some,
}
use gatus_qqbot.Errors.{
  Error, sentinel, message, Sentinel, queue_full, deadline_exceeded, body_too_large, eof, is,
  error_text,
}
use gatus_qqbot.Gatus.{
  Alert, Formatted, text, refused, validate, log_value, format, format_text, text_metadata,
}
use gatus_qqbot.Strings.{Text, codes, size, text_eq, is_empty, to_lower}

pub record Options : Type 0 where
  pub alert_path : Text
  pub auth_token : Text
  pub max_body_bytes : ℕ
  pub message_prefix : Text
  pub message_max_runes : ℕ
  pub delivery_timeout : ℕ

-- The bytes that the client sends, and how the stream ends if not by EOF.
pub record Body : Type 0 where
  pub content : Text
  pub failure : Option Error

-- A header that is missing reads as the empty text.
pub record Request : Type 0 where
  pub url_path : Text
  pub method : Text
  pub authorization : Text
  pub content_type : Text
  pub body : Body

-- what mime.ParseMediaType returns without an error; no charset reads as the empty text
pub record MediaType : Type 0 where
  pub media_type : Text
  pub charset : Text

-- `decode err = nil`, or the error
pub data Decoded : Type 0 where
  decoded : Alert → Decoded
  failed : Error → Decoded

-- The second argument of the readers is the limit of MaxBytesReader. `decode_more` is the error
-- of decoding a second value; `none` means that there is one.
pub record Env : Type 0 where
  pub parse_media_type : Text → Option MediaType
  pub decode_alert : Body → ℕ → Decoded
  pub decode_more : Body → ℕ → Option Error
  pub send : ℕ → Text → Option Error

-- The JSON object of a response has one key.
pub record Response : Type 0 where
  pub status : ℕ
  pub headers : List (Text × Text)
  pub key : Text
  pub value : Text

pub data Level : Type 0 where
  debug info warn error : Level

pub data Attr : Type 0 where
  attr : Text → Text → Attr
  error_attr : Error → Attr

pub record LogRecord : Type 0 where
  pub level : Level
  pub line : Text
  pub attrs : List Attr

pub record Outcome : Type 0 where
  pub response : Response
  pub sent : List Text
  pub logged : List LogRecord

abbrev pub json_type : Text × Text
json_type = (codes "Content-Type", codes "application/json")

-- `headers` are those set before the call
abbrev pub write_error : List (Text × Text) → ℕ → Text → Response
write_error headers status value = record {
  status = status;
  headers = headers ++ json_type ∷ [];
  key = codes "error";
  value = value;
}

abbrev pub accepted : Response
accepted = record {
  status = 202;
  headers = json_type ∷ [];
  key = codes "status";
  value = codes "accepted";
}

abbrev pub not_found : Response
not_found = write_error [] 404 (codes "not found")

unfoldable pub authorized : Options → Request → Bool
authorized o r =
    if is_empty o.auth_token
    then true
    else text_eq r.authorization (codes "Bearer " ++ o.auth_token)

unfoldable pub write_decode_error : Error → Response
write_decode_error e =
    if is body_too_large e
    then write_error [] 413 (codes "request body is too large")
    else write_error [] 400 (codes "invalid request body")

-- the error of `ensureEOF`, from that of the second decoding
unfoldable pub ensure_eof : Option Error → Option Error
ensure_eof none = some (message (codes "multiple JSON values"))
ensure_eof (some (sentinel eof)) = none
ensure_eof (some e) = some e

-- io.ReadAll behind MaxBytesReader: the error, or the whole content
unfoldable pub read_all : Body → ℕ → Option Error
read_all b limit = if leb (size b.content) limit then b.failure else some (sentinel body_too_large)

abbrev pub method_post : Text
method_post = codes "POST"

abbrev pub type_json : Text
type_json = codes "application/json"

abbrev pub type_text : Text
type_text = codes "text/plain"

unfoldable pub supported : MediaType → Bool
supported m =
    let charset = to_lower m.charset in
    (is_empty charset || text_eq charset (codes "utf-8"))
    && (text_eq m.media_type type_json || text_eq m.media_type type_text)

-- What the first half of the handler makes of a request.
pub data Prepared : Type 0 where
  reject : Response → Prepared
  ready : Text → Text → Text → Text → Prepared

unfoldable pub prepare_alert : Options → Text → Alert → Option Error → Prepared
prepare_alert o media_type alert (some e) = reject (write_error [] 422 (error_text e))
prepare_alert o media_type alert none =
    ready (format alert o.message_prefix o.message_max_runes) (log_value alert) alert.state
      media_type

unfoldable pub prepare_rest : Options → Text → Alert → Option Error → Prepared
prepare_rest o media_type alert (some e) = reject (write_decode_error e)
prepare_rest o media_type alert none = prepare_alert o media_type alert (validate alert)

unfoldable pub prepare_json : Options → Env → Text → Body → Decoded → Prepared
prepare_json o env media_type body (failed e) = reject (write_decode_error e)
prepare_json o env media_type body (decoded alert) =
    prepare_rest o media_type alert (ensure_eof (env.decode_more body o.max_body_bytes))

unfoldable pub prepare_formatted : Text → Text → Formatted → Prepared
prepare_formatted media_type content (refused e) = reject (write_error [] 422 (error_text e))
prepare_formatted media_type content (text t) =
    let (endpoint, state) = text_metadata content in ready t endpoint state media_type

unfoldable pub prepare_text : Options → Text → Text → Option Error → Prepared
prepare_text o media_type content (some e) = reject (write_decode_error e)
prepare_text o media_type content none =
    prepare_formatted media_type content (format_text content o.message_prefix o.message_max_runes)

abbrev pub unsupported : Text
unsupported = codes "Content-Type must be application/json or UTF-8 text/plain"

unfoldable pub prepare_body : Options → Env → Request → Option MediaType → Prepared
prepare_body o env r none = reject (write_error [] 415 unsupported)
prepare_body o env r (some m) =
    if not (supported m)
    then reject (write_error [] 415 unsupported)
    else if text_eq m.media_type type_json
    then prepare_json o env m.media_type r.body (env.decode_alert r.body o.max_body_bytes)
    else prepare_text o m.media_type r.body.content (read_all r.body o.max_body_bytes)

unfoldable pub prepare : Options → Env → Request → Prepared
prepare o env r =
    if not (text_eq r.method method_post)
    then reject (write_error ((codes "Allow", method_post) ∷ []) 405 (codes "method not allowed"))
    else if not (authorized o r)
    then reject
        (write_error ((codes "WWW-Authenticate", codes "Bearer") ∷ []) 401 (codes "unauthorized"))
    else prepare_body o env r (env.parse_media_type r.content_type)

abbrev attr_if : Text → Text → List Attr
attr_if name value = if is_empty value then [] else attr name value ∷ []

unfoldable pub alert_log_attrs : Text → Text → List Attr
alert_log_attrs endpoint state =
    attr_if (codes "endpoint") endpoint ++ attr_if (codes "state") state

abbrev pub retry_after : Text × Text
retry_after = (codes "Retry-After", codes "5")

-- the answer to the sender's result
unfoldable pub answer : Option Error → Response
answer none = accepted
answer (some e) =
    if is queue_full e
    then write_error (retry_after ∷ []) 503 (codes "QQ alert delivery queue is full")
    else if is deadline_exceeded e
    then write_error [] 504 (codes "QQ alert delivery timed out")
    else write_error [] 502 (codes "failed to forward alert to one or more QQ targets")

unfoldable pub log_of : List Attr → Text → Option Error → LogRecord
log_of attrs media_type none = record {
  level = info;
  line = codes "forwarded Gatus alert";
  attrs = attrs ++ attr (codes "content_type") media_type ∷ [];
}
log_of attrs media_type (some e) =
    if is queue_full e
    then record {
      level = warn;
      line = codes "rejected Gatus alert because the QQ delivery queue is full";
      attrs = attrs;
    }
    else record {
      level = error;
      line = codes "failed to forward Gatus alert";
      attrs = attrs ++ error_attr e ∷ [];
    }

-- the second half of the handler
unfoldable pub deliver : Options → Env → Prepared → Outcome
deliver o env (reject response) = record { response = response; sent = []; logged = [] }
deliver o env (ready t endpoint state media_type) =
    let result = env.send o.delivery_timeout t in
    record {
      response = answer result;
      sent = t ∷ [];
      logged = log_of (alert_log_attrs endpoint state) media_type result ∷ [];
    }

unfoldable pub alert : Options → Env → Request → Outcome
unfolding deliver
alert o env r = deliver o env (prepare o env r)

abbrev pub default_delivery_timeout : ℕ
default_delivery_timeout = 60_000_000_000

-- NewHandler fills in the timeout, and its mux knows the alert path alone. ServeMux compares the two
-- paths segment by segment, without their escapes; here they are compared as texts, which is the
-- same for paths that hold no escape, and no brace. A path that ServeMux redirects before it calls a
-- handler is not modelled.
unfoldable pub serve : Options → Env → Request → Outcome
serve o env r =
    let o' =
      if ltb 0 o.delivery_timeout
      then o
      else record o { delivery_timeout = default_delivery_timeout } in
    if text_eq r.url_path o.alert_path
    then alert o' env r
    else record { response = not_found; sent = []; logged = [] }
