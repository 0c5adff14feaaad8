-- ===== src/Qqbot/Gateway/Discovery.antt =====
-- gateway.go: `discover`, the rest of `Run` before its loop, and `stopSessionManager`. The transport of
-- the API, encoding/json and net/url are parameters.
pub mod Found
pub mod Returned
pub mod Tests
use gatus_qqbot.Base.{
  ℕ, Bool, true, false, ◌&&◌, ◌||◌, not, List, [], ◌∷◌, ◌++◌, Option, none, some, ◌==◌,
  if◌then◌else◌, ◌⊎◌, inl, inr, ltb,
}
use gatus_qqbot.Config.{decimal}
use gatus_qqbot.Errors.{Error, message, wrap}
use gatus_qqbot.Qqbot.Client.{current_api_domain}
use gatus_qqbot.Qqbot.Gateway.Supervisor.{
  Config, Event, Result, running, stopped, new_system, effective_timeout,
}
use gatus_qqbot.Qqbot.Gateway.Supervisor.{run as run_loop}
use gatus_qqbot.Qqbot.Session.{Request}
use gatus_qqbot.Strings.{Text, codes, text_eq, is_empty}

-- the parts of a parsed URL that are looked at
pub record Url : Type 0 where
  pub scheme : Text
  pub host : Text
  pub has_user : Bool

-- dto.WebsocketAP
pub record WebsocketAp : Type 0 where
  pub url : Text
  pub shards : ℕ
  pub total : ℕ
  pub remaining : ℕ
  pub max_concurrency : ℕ

-- a GET of an address; the field `url` of a JSON object; url.Parse, where `none` is an error
pub record Api : Type 0 where
  pub transport : Text → Error ⊎ Text
  pub decode_url : Text → Error ⊎ Text
  pub parse_url : Text → Option Url

abbrev pub gateway_endpoint : Text
gateway_endpoint = current_api_domain ++ codes "/gateway"

abbrev invalid_url : Error
invalid_url = message (codes "QQ gateway returned an invalid WebSocket URL")

unfoldable pub on_parsed : Text → Option Url → Error ⊎ WebsocketAp
on_parsed url none = inl invalid_url
on_parsed url (some u) =
    if not (text_eq u.scheme (codes "wss")) || is_empty u.host || u.has_user
    then inl invalid_url
    else inr (record { url = url; shards = 1; total = 1; remaining = 1; max_concurrency = 1 })

unfoldable pub on_url : Api → Error ⊎ Text → Error ⊎ WebsocketAp
unfolding on_parsed
on_url api (inl e) = inl (wrap (codes "decode QQ gateway response: ") e)
on_url api (inr url) = on_parsed url (api.parse_url url)

unfoldable pub on_body : Api → Error ⊎ Text → Error ⊎ WebsocketAp
unfolding on_url
on_body api (inl e) = inl (wrap (codes "discover QQ gateway: ") e)
on_body api (inr body) = on_url api (api.decode_url body)

unfoldable pub discover : Api → Error ⊎ WebsocketAp
unfolding on_body
discover api = on_body api (api.transport gateway_endpoint)

-- What BotGo gives: the intents of the registered handlers, dto.IntentGroupMessages, whether its
-- WebSocket client is registered, and `manager.CheckSessionLimit` and `manager.CalcInterval`.
pub record Botgo : Type 0 where
  pub intents : ℕ
  pub group_messages : ℕ
  pub has_factory : Bool
  pub check_session_limit : WebsocketAp → Option Error
  pub calc_interval : ℕ → ℕ

-- What `Run` does: it returns, or starts the session manager with a request and enters its loop.
pub data Start : Type 0 where
  refused : Option Error → Start
  started : WebsocketAp → Start

unfoldable pub with_intents : Botgo → WebsocketAp → Start
with_intents b ap =
    if b.intents == b.group_messages
    then started ap
    else refused (
        some (
          message (
            codes "configure QQ gateway intents: got "
            ++ (decimal b.intents ++ (codes ", want " ++ decimal b.group_messages)))))

unfoldable pub on_discovered : Botgo → Error ⊎ WebsocketAp → Start
unfolding with_intents
on_discovered b (inl e) = refused (some e)
on_discovered b (inr ap) = with_intents b ap

-- `Run` up to its loop; `ended` says that its context has ended before. An end of the context during
-- `discover` is an error of `transport`, and one behind it is the first event of the loop.
unfoldable pub begin : Bool → Api → Botgo → Start
unfolding on_discovered
begin ended api b = if ended then refused none else on_discovered b (discover api)

-- the request to the session manager
unfoldable pub request_of : Bool → Botgo → WebsocketAp → Request
request_of ended b ap = record {
  ended = ended;
  has_arguments = true;
  has_factory = b.has_factory;
  session_limit = b.check_session_limit ap;
  shards = ap.shards;
  shards_text = decimal ap.shards;
  calc_interval = b.calc_interval ap.max_concurrency;
  retry_interval = some (b.calc_interval ap.max_concurrency);
}

-- the result of `Run`, with the events that its loop meets; `running` says that it goes on
unfoldable pub run_started : Config → List Event → Start → Result
run_started c es (refused r) = stopped r
run_started c es (started ap) = (run_loop c new_system es).result

unfoldable pub run : Bool → Api → Botgo → Config → List Event → Result
unfolding run_started
run ended api b c es = run_started c es (begin ended api b)

-- stopSessionManager, behind the call of `cancel`: what it logs when the manager has not returned in
-- two seconds
unfoldable pub stop_session_manager : Bool → List Text
stop_session_manager true = []
stop_session_manager false =
    codes "QQ gateway supervisor did not stop before the shutdown deadline" ∷ []
