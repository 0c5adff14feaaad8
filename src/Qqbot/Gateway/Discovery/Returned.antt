-- ===== src/Qqbot/Gateway/Discovery/Returned.antt =====
-- gateway.go: why the whole of `Run` returns.
use gatus_qqbot.Base.{
  ℕ, Bool, true, false, ◌||◌, not, List, [], ◌∷◌, ◌++◌, Option, none, some, ◌==◌, ◌⊎◌, inl, inr,
  ◌≡◌, ◌≢◌, refl, ap, if_cases, arith, ==_iff, ==_refl,
}
use gatus_qqbot.Config.{decimal}
use gatus_qqbot.Errors.{Error, message, wrap}
use gatus_qqbot.Qqbot.Gateway.Discovery.{
  Url, WebsocketAp, Api, gateway_endpoint, on_parsed, on_url, on_body, discover, Botgo, Start,
  refused, with_intents, on_discovered, begin, run_started, run,
}
use gatus_qqbot.Qqbot.Gateway.Supervisor.{Config, running, stopped, Event, new_system, step}
use gatus_qqbot.Qqbot.Gateway.Supervisor.{run as run_loop}
use gatus_qqbot.Qqbot.Gateway.Supervisor.Stops.{IsReason, stops_for-IsReason}
use gatus_qqbot.Strings.{Text, codes, text_eq, is_empty}
use gatus_qqbot.Qqbot.Gateway.Supervisor.Stopped.{loop-IsStop}

-- The URL is not one of a secure WebSocket with a host and without credentials.
abbrev pub IsInvalid : Api → Text → Type 0
IsInvalid api url =
    (api.parse_url url ≡ none)
    ⊎ ((u : Url) × (api.parse_url url ≡ some u)
        × ((u.scheme ≢ codes "wss") ⊎ (u.host ≡ []) ⊎ (u.has_user ≡ true)))

-- The discovery of the gateway's URL fails with `e`: with the error of the GET, with the one of its
-- body, or since the URL is invalid.
abbrev pub IsUndiscovered : Api → Error → Type 0
IsUndiscovered api e =
    ((x : Error) × (api.transport gateway_endpoint ≡ inl x)
      × (e ≡ wrap (codes "discover QQ gateway: ") x))
    ⊎ ((body : Text) × (x : Error) × (api.transport gateway_endpoint ≡ inr body)
        × (api.decode_url body ≡ inl x)
        × (e ≡ wrap (codes "decode QQ gateway response: ") x))
    ⊎ ((body : Text) × (url : Text) × (api.transport gateway_endpoint ≡ inr body)
        × (api.decode_url body ≡ inr url)
        × IsInvalid api url
        × (e ≡ message (codes "QQ gateway returned an invalid WebSocket URL")))

-- The first event at which the loop returns, with the reason for it.
abbrev pub IsLoopEnd : Config → List Event → Option Error → Type 0
IsLoopEnd c es r =
    (before : List Event) × (e : Event) × (after : List Event) × (es ≡ before ++ e ∷ after)
    × ((run_loop c new_system before).result ≡ running)
    × ((step c (run_loop c new_system before) e).result ≡ stopped r)
    × IsReason c (run_loop c new_system before) e r

-- the error of a gateway with other intents than it has to have
abbrev pub wrong_intents : ℕ → ℕ → Error
wrong_intents got want = message (
    codes "configure QQ gateway intents: got "
    ++ (decimal got ++ (codes ", want " ++ decimal want)))

-- The reasons for `Run` to return: an error of the discovery or the wrong intents; no error, since
-- the context has ended before; or a reason of the loop.
abbrev pub IsReturn : Bool → Api → Botgo → Config → List Event → Option Error → Type 0
IsReturn ended api b c es r =
    ((ended ≡ true) × (r ≡ none))
    ⊎ ((ended ≡ false) × ((e : Error) × IsUndiscovered api e × (r ≡ some e)))
    ⊎ ((ended ≡ false)
        × (b.intents ≢ b.group_messages)
        × (r ≡ some (wrong_intents b.intents b.group_messages)))
    ⊎ ((ended ≡ false) × (b.intents ≡ b.group_messages) × IsLoopEnd c es r)

abbrev Explains : Bool → Api → Botgo → Config → List Event → Start → Type 0
Explains ended api b c es s =
    (r : Option Error) → run_started c es s ≡ stopped r → IsReturn ended api b c es r

refused_returns :
    (c : Config) (es : List Event) (r r' : Option Error)
    → run_started c es (refused r) ≡ stopped r'
    → r' ≡ r
unfolding run_started
refused_returns c es r r' h = cc

with_intents_returns :
    (api : Api) (b : Botgo) (c : Config) (es : List Event) (ap : WebsocketAp)
    → Explains false api b c es (with_intents b ap)
unfolding with_intents run_started
with_intents_returns api b c es ap =
    if_cases (Explains false api b c es) (b.intents == b.group_messages)
      (λ i r h.
        let (before, e, after, k, g, s) = loop-IsStop c r new_system es refl h in
        inr (
          inr (
            inr (
              refl,
              (==_iff _ _).0 i,
              (before, e, after, k, g, s, stops_for-IsReason c before _ e r refl g s),
            ))))
      (λ i r h.
        inr (inr (inl (refl, (λ q. absurd (ground (arith, i, q))), refused_returns c es _ r h))))

undiscovered_returns :
    (api : Api) (b : Botgo) (c : Config) (es : List Event) (e : Error)
    → IsUndiscovered api e
    → Explains false api b c es (on_discovered b (inl e))
unfolding on_discovered
undiscovered_returns api b c es e u r h = inr (inl (refl, (e, u, refused_returns c es _ r h)))

text_eq_refl : (s : Text) → text_eq s s ≡ true
unfolding text_eq
text_eq_refl [] = refl
text_eq_refl (x ∷ s) = ground (arith, ==_refl x, text_eq_refl s)

is_empty→eq : (s : Text) → is_empty s ≡ true → s ≡ []
unfolding is_empty
is_empty→eq [] h = refl
is_empty→eq (x ∷ s) h = absurd (cc)

rejected_cases :
    (scheme host : Text) (user a b : Bool)
    → text_eq scheme (codes "wss") ≡ a
    → is_empty host ≡ b
    → (not a || b || user) ≡ true
    → (scheme ≢ codes "wss") ⊎ (host ≡ []) ⊎ (user ≡ true)
rejected_cases scheme host user false b p q h =
    inl (λ e. absurd (cc (ap (λ s. text_eq s (codes "wss")) e, text_eq_refl (codes "wss"))))
rejected_cases scheme host user true true p q h = inr (inl (is_empty→eq host q))
rejected_cases scheme host user true false p q h = inr (inr h)

on_parsed_returns :
    (api : Api) (b : Botgo) (c : Config) (es : List Event) (body url : Text) (o : Option Url)
    → api.transport gateway_endpoint ≡ inr body
    → api.decode_url body ≡ inr url
    → api.parse_url url ≡ o
    → Explains false api b c es (on_discovered b (on_parsed url o))
unfolding on_parsed on_discovered
on_parsed_returns api b c es body url none t d p =
    undiscovered_returns api b c es _ (inr (inr (body, url, t, d, inl p, refl)))
on_parsed_returns api b c es body url (some u) t d p =
    if_cases (λ (x : Error ⊎ WebsocketAp). Explains false api b c es (on_discovered b x)) _
      (λ i. undiscovered_returns api b c es _ (
        inr (
          inr (
            body,
            url,
            t,
            d,
            inr (u, p, rejected_cases u.scheme u.host u.has_user _ _ refl refl i),
            refl,
          ))))
      (λ _. with_intents_returns api b c es _)

on_url_returns :
    (api : Api) (b : Botgo) (c : Config) (es : List Event) (body : Text) (o : Error ⊎ Text)
    → api.transport gateway_endpoint ≡ inr body
    → api.decode_url body ≡ o
    → Explains false api b c es (on_discovered b (on_url api o))
unfolding on_url
on_url_returns api b c es body (inl x) t d =
    undiscovered_returns api b c es _ (inr (inl (body, x, t, d, refl)))
on_url_returns api b c es body (inr url) t d =
    on_parsed_returns api b c es body url (api.parse_url url) t d refl

on_body_returns :
    (api : Api) (b : Botgo) (c : Config) (es : List Event) (o : Error ⊎ Text)
    → api.transport gateway_endpoint ≡ o
    → Explains false api b c es (on_discovered b (on_body api o))
unfolding on_body
on_body_returns api b c es (inl x) t = undiscovered_returns api b c es _ (inl (x, t, refl))
on_body_returns api b c es (inr body) t =
    on_url_returns api b c es body (api.decode_url body) t refl

-- `Run` returns for one of these reasons and no other. Before its loop: nil, if its context has ended
-- at the start; or an error, if the gateway's URL cannot be discovered, with the error of the GET or
-- of its body or since the URL is not that of a
-- secure WebSocket with a host and without credentials; or an error that tells the intents, if they are not
-- those of group messages. In the loop, which it enters only with these intents, at the first event that stops
-- it: nil only when the context has ended; an error only while the context has not ended, and then
-- for a fatal error, for the end of the session manager with no fatal error set, or for the timer
-- of an outage that lasts, with the error of that outage.
pub run-IsReturn :
    (ended : Bool) (api : Api) (b : Botgo) (c : Config) (es : List Event) (r : Option Error)
    → run ended api b c es ≡ stopped r
    → IsReturn ended api b c es r
unfolding run begin discover
run-IsReturn true api b c es r h = inl (refl, refused_returns c es none r h)
run-IsReturn false api b c es r h = on_body_returns api b c es _ refl r h
