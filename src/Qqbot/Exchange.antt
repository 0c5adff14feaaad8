-- ===== src/Qqbot/Exchange.antt =====
-- internal/qqbot/auth.go: the exchange of JSON with QQ's binding service, the creation of a task with
-- it, and the number or text of a response. net/http, encoding/json, encoding/base64 and the random
-- source are parameters. A limit of bytes is a natural number below 2 ^ 63 - 1; 0 stands for one that is
-- not positive.
pub mod Whole
pub mod Number
mod Tests
use gatus_qqbot.Base.{
  ℕ, zero, suc, ◌+◌, ◌*◌, ◌-◌, ◌^◌, Bool, true, false, ◌&&◌, ◌||◌, not, List, [], ◌∷◌, ◌++◌, Option,
  none, some, ltb, leb, ◌==◌, if◌then◌else◌, ◌⊎◌, inl, inr, length, take,
}
use gatus_qqbot.Config.{ℤ, pos, negsuc, decimal, int_text}
use gatus_qqbot.Errors.{Error, message, wrap}
use gatus_qqbot.Strings.{Text, codes, is_empty, trim_space}

-- A response: its status, and the bytes of its body up to its end or up to an error of reading it.
pub record Reply : Type 0 where
  pub status : ℕ
  pub body : List ℕ
  pub body_error : Option Error

-- What one call of `postJSON` meets: `json.Marshal`, `http.NewRequestWithContext`, `client.Do`,
-- `requestCtx.Err()` behind its error, and `json.Unmarshal`.
pub record Http {ℓ} (A : Type ℓ) : Type ℓ where
  pub encode_error : Option Error
  pub request_error : Option Error
  pub sent : Error ⊎ Reply
  pub ended : Option Error
  pub decode : List ℕ → Error ⊎ A
  pub max_response_bytes : ℕ

abbrev pub default_max_response_size : ℕ
default_max_response_size = 65536

unfoldable pub limit_of : ℕ → ℕ
limit_of max = if leb max 0 then default_max_response_size else max

-- a body that is read to its end
unfoldable pub read_end : List ℕ → Option Error → Error ⊎ List ℕ
read_end body (some e) = inl (wrap (codes "read response: ") e)
read_end body none = inr body

-- io.ReadAll of an io.LimitReader: an error behind the last byte that may be read is not met
unfoldable pub read_limited : ℕ → Reply → Error ⊎ List ℕ
unfolding read_end
read_limited n r =
    if leb n (length r.body) then inr (take n r.body) else read_end r.body r.body_error

unfoldable pub on_decoded {ℓ} : {A : Type ℓ} → Error ⊎ A → Error ⊎ A
on_decoded (inl e) = inl (wrap (codes "decode response JSON: ") e)
on_decoded (inr a) = inr a

abbrev pub exceeds : ℕ → Error
exceeds limit = message (codes "response body exceeds " ++ (decimal limit ++ codes " bytes"))

unfoldable pub on_bytes {ℓ} : {A : Type ℓ} → Http A → ℕ → Error ⊎ List ℕ → Error ⊎ A
unfolding on_decoded
on_bytes h limit (inl e) = inl e
on_bytes h limit (inr bytes) =
    if ltb limit (length bytes) then inl (exceeds limit) else on_decoded (h.decode bytes)

abbrev pub unexpected_status : ℕ → Error
unexpected_status n = message (codes "unexpected HTTP status " ++ decimal n)

unfoldable pub on_reply {ℓ} : {A : Type ℓ} → Http A → Reply → Error ⊎ A
unfolding on_bytes read_limited limit_of
on_reply h r =
    if r.status == 200
    then on_bytes h (limit_of h.max_response_bytes)
        (read_limited (limit_of h.max_response_bytes + 1) r)
    else inl (unexpected_status r.status)

unfoldable pub send_error : Option Error → Error → Error
send_error (some c) e = c
send_error none e = wrap (codes "send request: ") e

unfoldable pub on_sent {ℓ} : {A : Type ℓ} → Http A → Error ⊎ Reply → Error ⊎ A
unfolding on_reply send_error
on_sent h (inl e) = inl (send_error h.ended e)
on_sent h (inr r) = on_reply h r

unfoldable pub on_request {ℓ} : {A : Type ℓ} → Http A → Option Error → Error ⊎ A
unfolding on_sent
on_request h (some e) = inl (wrap (codes "create request: ") e)
on_request h none = on_sent h h.sent

unfoldable pub on_encoded {ℓ} : {A : Type ℓ} → Http A → Option Error → Error ⊎ A
unfolding on_request
on_encoded h (some e) = inl (wrap (codes "encode request: ") e)
on_encoded h none = on_request h h.request_error

unfoldable pub post_json {ℓ} : {A : Type ℓ} → Http A → Error ⊎ A
unfolding on_encoded
post_json h = on_encoded h h.encode_error

-- The message is printed without the escapes of %q.
unfoldable pub bind_api_error : Text → ℤ → Text → Error
unfolding int_text
bind_api_error fallback code msg =
    let start = fallback ++ (codes " (retcode " ++ int_text code) in
    let text = trim_space msg in
    if is_empty text
    then message (start ++ codes ")")
    else message (start ++ (codes "): \"" ++ (text ++ codes "\"")))

unfoldable pub is_zero : ℤ → Bool
is_zero (pos n) = n == 0
is_zero (negsuc n) = false

-- the decoded response of a creation; `task_id` stands for `Data` with its only field
pub record CreateResponse : Type 0 where
  pub ret_code : Option ℤ
  pub msg : Text
  pub task_id : Option Text

pub record BindTask : Type 0 where
  pub id : Text
  pub key : List ℕ

abbrev missing_task_id : Error
missing_task_id = message (codes "create response is missing data.task_id")

unfoldable pub create_id : List ℕ → Option Text → Error ⊎ BindTask
create_id key none = inl missing_task_id
create_id key (some id) =
    if is_empty (trim_space id) then inl missing_task_id else inr (record { id = id; key = key })

unfoldable pub create_coded : List ℕ → CreateResponse → Option ℤ → Error ⊎ BindTask
unfolding create_id is_zero bind_api_error
create_coded key r none = inl (message (codes "create response is missing retcode"))
create_coded key r (some code) =
    if is_zero code
    then create_id key r.task_id
    else inl (bind_api_error (codes "create_bind_task failed") code r.msg)

unfoldable pub on_created : List ℕ → Error ⊎ CreateResponse → Error ⊎ BindTask
unfolding create_coded
on_created key (inl e) = inl e
on_created key (inr r) = create_coded key r r.ret_code

-- the random source: its bytes up to its error, as `io.ReadFull` gives it
pub record Random : Type 0 where
  pub bytes : List ℕ
  pub failure : Error

-- createBindTask, where the exchange depends on the key that is sent
unfoldable pub create_bind_task : Random → (List ℕ → Http CreateResponse) → Error ⊎ BindTask
unfolding on_created post_json
create_bind_task random http =
    if leb 32 (length random.bytes)
    then (let key = take 32 random.bytes in on_created key (post_json (http key)))
    else inl (wrap (codes "generate encryption key: ") random.failure)

-- the JSON that a `stringOrNumber` is decoded from, a number with its text
pub data Json : Type 0 where
  json_string : Text → Json
  json_null : Json
  json_number : Text → Json
  json_other : Json

unfoldable pub is_digit : ℕ → Bool
is_digit c = leb 48 c && leb c 57

-- the digits of a text, read behind a number
unfoldable pub parse_digits : ℕ → Text → Option ℕ
unfolding is_digit
parse_digits n [] = some n
parse_digits n (c ∷ s) =
    let rest = parse_digits (n * 10 + (c - 48)) s in if is_digit c then rest else none

unfoldable pub in_uint64 : Option ℕ → Bool
in_uint64 none = false
in_uint64 (some n) = ltb n (2 ^ 64)

-- whether strconv.ParseUint(s, 10, 64) has no error
unfoldable pub parses_uint64 : Text → Bool
unfolding in_uint64 parse_digits
parses_uint64 [] = false
parses_uint64 (c ∷ s) = in_uint64 (parse_digits 0 (c ∷ s))

unfoldable pub string_or_number : Json → Error ⊎ Text
unfolding parses_uint64
string_or_number (json_string t) = inr t
string_or_number json_null = inr []
string_or_number (json_number t) =
    if parses_uint64 t then inr t else inl (message (codes "must be a string or unsigned integer"))
string_or_number json_other = inl (message (codes "must be a string or integer"))

-- waitContext: a duration, whether its timer fires before the context ends, and `ctx.Err()`
unfoldable pub wait_context : ℕ → Bool → Option Error → Option Error
wait_context duration fires ended = if leb duration 0 then ended else if fires then none else ended
