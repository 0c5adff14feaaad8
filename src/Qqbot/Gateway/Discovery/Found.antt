-- ===== src/Qqbot/Gateway/Discovery/Found.antt =====
-- gateway.go: what has been checked when `Run` starts the session manager.
use gatus_qqbot.Base.{
  Bool, true, false, ◌||◌, not, Option, none, some, ◌==◌, ==_iff, ◌⊎◌, inl, inr, ◌≡◌, refl, sym,
  subst, ap, ||_eq_false, if_cases, inr-inj, not-false, arith,
}
use gatus_qqbot.Errors.{Error}
use gatus_qqbot.Gatus.Metadata.{text_eq→eq}
use gatus_qqbot.Qqbot.Gateway.Discovery.{
  Url, WebsocketAp, Api, gateway_endpoint, on_parsed, on_url, on_body, discover, Botgo, Start,
  started, with_intents, on_discovered, begin, request_of,
}
use gatus_qqbot.Qqbot.Session.{refusal}
use gatus_qqbot.Qqbot.Session.{refused as refused_by}
use gatus_qqbot.Strings.{Text, codes, text_eq, is_empty}

-- a secure WebSocket URL with a host and without credentials, and the limits of one session
abbrev pub IsSecure : Api → WebsocketAp → Type 0
IsSecure api ap =
    ((u : Url) × (api.parse_url ap.url ≡ some u)
      × (u.scheme ≡ codes "wss")
      × (is_empty u.host ≡ false)
      × (u.has_user ≡ false))
    × (ap.shards ≡ 1)
    × (ap.max_concurrency ≡ 1)

-- A URL that is looked at, with the access point that is made of it.
abbrev Discovers : Api → Text → Error ⊎ WebsocketAp → Type 0
Discovers api url o = (ap : WebsocketAp) → o ≡ inr ap → (ap.url ≡ url) × IsSecure api ap

on_parsed-Discovers :
    (api : Api) (url : Text) (o : Option Url)
    → api.parse_url url ≡ o
    → Discovers api url (on_parsed url o)
unfolding on_parsed
on_parsed-Discovers api url none h = λ ap q. absurd (cc)
on_parsed-Discovers api url (some u) h =
    if_cases (Discovers api url)
      (not (text_eq u.scheme (codes "wss")) || is_empty u.host || u.has_user)
      (λ b ap q. absurd (cc))
      (λ b ap q.
        let (x, user) = ||_eq_false _ _ b in
        let (scheme, host) = ||_eq_false _ _ x in
        subst (λ (a : WebsocketAp). (a.url ≡ url) × IsSecure api a) (inr-inj q)
          (refl, ((u, h, text_eq→eq _ _ (not-false _ scheme), host, user), refl, refl)))

-- What QQ has answered to the GET of the gateway's address.
abbrev pub IsAnswered : Api → Text → Type 0
IsAnswered api url =
    (body : Text) × (api.transport gateway_endpoint ≡ inr body) × (api.decode_url body ≡ inr url)

on_url-IsSecure :
    (api : Api) (body : Text) (o : Error ⊎ Text) (ap : WebsocketAp)
    → api.transport gateway_endpoint ≡ inr body
    → api.decode_url body ≡ o
    → on_url api o ≡ inr ap
    → IsAnswered api ap.url × IsSecure api ap
unfolding on_url
on_url-IsSecure api body (inl e) ap t d h = absurd (cc)
on_url-IsSecure api body (inr url) ap t d h =
    let (same, secure) = on_parsed-Discovers api url (api.parse_url url) refl ap h in
    ((body, t, subst (λ u. api.decode_url body ≡ inr u) (sym same) d), secure)

on_body-IsSecure :
    (api : Api) (o : Error ⊎ Text) (ap : WebsocketAp)
    → api.transport gateway_endpoint ≡ o
    → on_body api o ≡ inr ap
    → IsAnswered api ap.url × IsSecure api ap
unfolding on_body
on_body-IsSecure api (inl e) ap t h = absurd (cc)
on_body-IsSecure api (inr body) ap t h = on_url-IsSecure api body (api.decode_url body) ap t refl h

-- What holds when the session manager is started, and that it accepts the number of shards.
abbrev pub IsReady : Bool → Api → Botgo → WebsocketAp → Type 0
IsReady ended api b ap =
    (ended ≡ false)
    × IsAnswered api ap.url
    × IsSecure api ap
    × (b.intents ≡ b.group_messages)
    × (b.has_factory ≡ true
        → b.check_session_limit ap ≡ none
        → refused_by (request_of false b ap) ≡ none)

request_of-refused :
    (b : Botgo) (ap : WebsocketAp)
    → ap.shards ≡ 1
    → b.has_factory ≡ true
    → b.check_session_limit ap ≡ none
    → refused_by (request_of false b ap) ≡ none
unfolding request_of refused_by refusal
request_of-refused b ap s f l = rw (f, l) (ground arith)

abbrev Starts : Bool → Api → Botgo → Start → Type 0
Starts ended api b r = (ap : WebsocketAp) → r ≡ started ap → IsReady ended api b ap

with_intents-IsReady :
    (api : Api) (b : Botgo) (ap : WebsocketAp)
    → IsAnswered api ap.url × IsSecure api ap
    → Starts false api b (with_intents b ap)
unfolding with_intents
with_intents-IsReady api b ap (answered, secure) =
    if_cases (Starts false api b) (b.intents == b.group_messages)
      (λ i ap' q.
        subst (IsReady false api b) (cc)
          (refl, answered, secure, (==_iff _ _).0 i, request_of-refused b ap secure.1))
      (λ i ap' q. absurd (cc))

on_discovered-IsReady :
    (api : Api) (b : Botgo) (o : Error ⊎ WebsocketAp)
    → on_body api (api.transport gateway_endpoint) ≡ o
    → Starts false api b (on_discovered b o)
unfolding on_discovered
on_discovered-IsReady api b (inl e) h = λ ap q. absurd (cc)
on_discovered-IsReady api b (inr ap) h =
    with_intents-IsReady api b ap (on_body-IsSecure api _ ap refl h)

-- `Run` starts the session manager only while its context has not ended, with the URL that QQ answered
-- at the gateway's address, which is a secure WebSocket URL with a host and without credentials, and
-- with the intents of group messages; and the manager does not refuse this request, if BotGo's
-- client is registered and BotGo accepts the session limit.
pub begin-IsReady :
    (ended : Bool) (api : Api) (b : Botgo) (ap : WebsocketAp)
    → begin ended api b ≡ started ap
    → IsReady ended api b ap
unfolding begin discover
begin-IsReady true api b ap h = absurd (cc)
begin-IsReady false api b ap h =
    on_discovered-IsReady api b (on_body api (api.transport gateway_endpoint)) refl ap h
