-- ===== src/Qqbot/Binding.antt =====
-- internal/qqbot/auth.go: the binding of a bot by a QR code, over a list of the rounds that are made and
-- of the polls in each. The cryptography is a parameter.
pub mod Bound
pub mod Displayed
pub mod Tests
use gatus_qqbot.Base.{
  String, ℕ, zero, suc, ◌+◌, Bool, true, false, ◌||◌, not, List, [], ◌∷◌, ◌++◌, Option, none, some,
  ltb, leb, ◌==◌, if◌then◌else◌, ◌⊎◌, inl, inr, length, take,
}
use gatus_qqbot.Config.{ℤ, pos, negsuc}
use gatus_qqbot.Errors.{Error, message, wrap}
use gatus_qqbot.Qqbot.ConnectUrl.{Page, build_connect_url}
use gatus_qqbot.Qqbot.Exchange.{
  Http, post_json, bind_api_error, is_zero, CreateResponse, BindTask, Random, create_bind_task,
  wait_context,
}
use gatus_qqbot.Qqbot.Secret.{Crypto, decrypt_bind_secret}
use gatus_qqbot.Strings.{Text, codes, is_empty, trim_space, valid_string}

pub data BindStatus : Type 0 where
  none_yet pending completed expired unknown : BindStatus

unfoldable pub bind_status : ℤ → BindStatus
bind_status (negsuc n) = unknown
bind_status (pos n) =
    if n == 0
    then none_yet
    else if n == 1
    then pending
    else if n == 2
    then completed
    else if n == 3
    then expired
    else unknown

pub record QrCredentials : Type 0 where
  pub app_id : Text
  pub app_secret : Text
  pub user_open_id : Text

-- the decoded response of a poll
pub record PollData : Type 0 where
  pub status : Option ℤ
  pub bot_app_id : Text
  pub bot_encrypted_secret : Text
  pub user_open_id : Text

pub record PollResponse : Type 0 where
  pub ret_code : Option ℤ
  pub msg : Text
  pub poll_data : Option PollData

pub record BindPollResult : Type 0 where
  pub status : BindStatus
  pub app_id : Text
  pub encrypted_secret : Text
  pub user_open_id : Text

unfoldable pub poll_status : PollData → Option ℤ → Error ⊎ BindPollResult
unfolding bind_status
poll_status d none = inl (message (codes "poll response is missing data.status"))
poll_status d (some s) = inr (record {
  status = bind_status s;
  app_id = d.bot_app_id;
  encrypted_secret = d.bot_encrypted_secret;
  user_open_id = d.user_open_id;
})

unfoldable pub poll_data_result : Option PollData → Error ⊎ BindPollResult
unfolding poll_status
poll_data_result none = inl (message (codes "poll response is missing data.status"))
poll_data_result (some d) = poll_status d d.status

unfoldable pub poll_coded : PollResponse → Option ℤ → Error ⊎ BindPollResult
unfolding poll_data_result is_zero bind_api_error
poll_coded r none = inl (message (codes "poll response is missing retcode"))
poll_coded r (some code) =
    if is_zero code
    then poll_data_result r.poll_data
    else inl (bind_api_error (codes "poll_bind_result failed") code r.msg)

unfoldable pub on_polled : Error ⊎ PollResponse → Error ⊎ BindPollResult
unfolding poll_coded
on_polled (inl e) = inl e
on_polled (inr r) = poll_coded r r.ret_code

-- pollBindResult
unfoldable pub poll_bind_result : Http PollResponse → Error ⊎ BindPollResult
unfolding on_polled post_json
poll_bind_result h = on_polled (post_json h)

-- what one poll meets: the exchange, `ctx.Err()` behind an error, and in the wait for the next poll
-- whether the timer fires before the context ends, and its error
pub record Poll : Type 0 where
  pub exchange : Http PollResponse
  pub ended : Option Error
  pub fires : Bool
  pub ended_late : Option Error

abbrev pub default_poll_interval : ℕ
default_poll_interval = 2000000000

-- the wait behind a poll
unfoldable pub waited : Poll → Option Error
unfolding wait_context
waited p = wait_context default_poll_interval p.fires p.ended_late

-- How the wait for a binding ends; `polling` says that the list of polls is over and it does not.
pub data Binding : Type 0 where
  bound : QrCredentials → Binding
  qr_expired : Binding
  failed : Error → Binding
  polling : Binding

unfoldable pub with_secret : BindPollResult → Error ⊎ Text → Binding
with_secret r (inl e) = failed (wrap (codes "decrypt QQ Bot AppSecret: ") e)
with_secret r (inr secret) =
    bound (record { app_id = r.app_id; app_secret = secret; user_open_id = r.user_open_id })

unfoldable pub on_completed : Crypto → List ℕ → BindPollResult → Binding
unfolding decrypt_bind_secret with_secret
on_completed x key r =
    if is_empty (trim_space r.app_id)
    then failed (message (codes "completed poll response is missing data.bot_appid"))
    else if is_empty r.encrypted_secret
    then failed (message (codes "completed poll response is missing data.bot_encrypt_secret"))
    else with_secret r (decrypt_bind_secret x r.encrypted_secret key)

-- the wait before the next poll
unfoldable pub or_wait : Option Error → Binding → Binding
or_wait none rest = rest
or_wait (some e) rest = failed e

unfoldable pub on_status : Crypto → List ℕ → Poll → BindPollResult → BindStatus → Binding → Binding
unfolding on_completed or_wait waited
on_status x key p r completed rest = on_completed x key r
on_status x key p r expired rest = qr_expired
on_status x key p r none_yet rest = or_wait (waited p) rest
on_status x key p r pending rest = or_wait (waited p) rest
on_status x key p r unknown rest = or_wait (waited p) rest

unfoldable pub on_poll : Crypto → List ℕ → Poll → Error ⊎ BindPollResult → Binding → Binding
unfolding on_status
on_poll x key p (inl e) rest = elim p.ended [ some c ↦ failed c | none ↦ or_wait (waited p) rest ]
on_poll x key p (inr r) rest = on_status x key p r r.status rest

unfoldable pub wait_for_binding : Crypto → List ℕ → List Poll → Binding
unfolding on_poll poll_bind_result
wait_for_binding x key [] = polling
wait_for_binding x key (p ∷ ps) =
    let rest = wait_for_binding x key ps in on_poll x key p (poll_bind_result p.exchange) rest

-- what one round of `Connect` meets: the random source, the exchange that creates the task, which
-- depends on the key, and the polls
pub record Round : Type 0 where
  pub random : Random
  pub http : List ℕ → Http CreateResponse
  pub polls : List Poll

-- the URLs that were shown, and the result
pub record Connected : Type 0 where
  pub shown : List Text
  pub result : Binding

unfoldable pub after_binding : Text → Binding → Connected → Connected
after_binding url qr_expired rest = record rest { shown = url ∷ rest.shown }
after_binding url b rest = record { shown = url ∷ []; result = b }

unfoldable pub on_url : Crypto → List ℕ → List Poll → Error ⊎ Text → Connected → Connected
unfolding after_binding wait_for_binding
on_url x key polls (inl e) rest = record {
  shown = [];
  result = failed (wrap (codes "build QQ QR binding URL: ") e);
}
on_url x key polls (inr url) rest = after_binding url (wait_for_binding x key polls) rest

-- what stays the same in all rounds: the cryptography, the parsed page, and the source
pub record Connector : Type 0 where
  pub crypto : Crypto
  pub page : Error ⊎ Page
  pub source : Text

unfoldable pub on_task : Connector → List Poll → Error ⊎ BindTask → Connected → Connected
unfolding on_url build_connect_url
on_task c polls (inl e) rest = record {
  shown = [];
  result = failed (wrap (codes "create QQ QR binding task: ") e);
}
on_task c polls (inr t) rest =
    on_url c.crypto t.key polls (build_connect_url c.page t.id c.source) rest

-- the loop of Connect
unfoldable pub connect_rounds : Connector → List Round → Connected
unfolding on_task create_bind_task
connect_rounds c [] = record { shown = []; result = polling }
connect_rounds c (r ∷ rs) =
    let rest = connect_rounds c rs in on_task c r.polls (create_bind_task r.random r.http) rest

-- Connect: `ctx.Err()` at its start, and whether the connector has a client and a random source
unfoldable pub connect : Option Error → Bool → Connector → List Round → Connected
unfolding connect_rounds
connect (some e) ready c rs = record { shown = []; result = failed e }
connect none ready c rs = if ready then connect_rounds c rs else record {
  shown = [];
  result = failed (message (codes "QQ QR connector is not initialized"));
}
