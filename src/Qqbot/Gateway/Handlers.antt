-- ===== src/Qqbot/Gateway/Handlers.antt =====
-- gateway.go: `registerHandlers`: the handlers by what BotGo calls them for, beside the events of the
-- loop of `Run`.
use gatus_qqbot.Base.{◌&&◌, not, [], ◌∷◌, Option, none, some, ◌≡◌, ◌⊎◌, inl, inr, refl, if_cases}
use gatus_qqbot.Errors.{Error, message}
use gatus_qqbot.Qqbot.Gateway.{
  Gateway, Payload, ReadyData, Reaction, error_notified, accept_event, group_open_id, on_ready,
  observe_event, on_group_message,
}
use gatus_qqbot.Qqbot.Gateway.Supervisor.{Config, System, Event, ready_event, other_event, step}
use gatus_qqbot.Strings.{Text, codes, is_empty}

-- A call of a handler: READY; an error of the connection; an event that BotGo has no parser for, such as
-- RESUMED; a message of a user; a message of a group, with the ids of the raw message and of its data;
-- the status of a subscription; a change of a friend.
pub data Notice : Type 0 where
  ready : Option Payload → Option ReadyData → Notice
  connection_failed : Option Error → Notice
  plain : Option Payload → Notice
  c2c_message : Option Payload → Notice
  group_at_message : Option Payload → Option (Text × Text) → Option Text → Notice
  message_status : Option Payload → Notice
  friend_change : Option Payload → Notice

unfoldable pub on_connection_failed : Gateway → Option Error → Reaction
on_connection_failed g none = record {
  gateway = g;
  logged = error_notified (message (codes "unknown connection error")) ∷ [];
}
on_connection_failed g (some e) = record { gateway = g; logged = error_notified e ∷ [] }

unfoldable pub handle : Gateway → Notice → Reaction
unfolding on_connection_failed
handle g (ready p d) = on_ready g p d
handle g (connection_failed e) = on_connection_failed g e
handle g (plain p) = observe_event g p
handle g (c2c_message p) = observe_event g p
handle g (group_at_message p envelope d) = on_group_message g p envelope d
handle g (message_status p) = observe_event g p
handle g (friend_change p) = observe_event g p

on_group_message-gateway :
    (g : Gateway) (p : Option Payload) (envelope : Option (Text × Text)) (d : Option Text)
    → (on_group_message g p envelope d).gateway ≡ (observe_event g p).gateway
unfolding on_group_message
on_group_message-gateway g p envelope d =
    if_cases (λ (r : Reaction). r.gateway ≡ (observe_event g p).gateway)
      (accept_event g.state p && not (is_empty (group_open_id envelope d))) (λ b. refl) (λ b. refl)

-- Whatever BotGo calls a handler for, the gateway is left as it was, or as an event of the machine that
-- has the loop of `Run` leaves it: the machine misses no change.
pub handle-step :
    (c : Config) (y : System) (n : Notice)
    → ((handle y.gateway n).gateway ≡ y.gateway)
      ⊎ ((e : Event) × (step c y e ≡ record y { gateway = (handle y.gateway n).gateway }))
unfolding handle step
handle-step c y (ready p d) = inr (ready_event p d, refl)
handle-step c y (connection_failed none) = inl refl
handle-step c y (connection_failed (some e)) = inl refl
handle-step c y (plain p) = inr (other_event p, refl)
handle-step c y (c2c_message p) = inr (other_event p, refl)
handle-step c y (group_at_message p envelope d) =
    inr (other_event p, rw (on_group_message-gateway y.gateway p envelope d) refl)
handle-step c y (message_status p) = inr (other_event p, refl)
handle-step c y (friend_change p) = inr (other_event p, refl)
