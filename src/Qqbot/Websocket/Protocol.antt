-- ===== src/Qqbot/Websocket/Protocol.antt =====
-- gateway_session.go: how an attempt at a session ends.
use gatus_qqbot.Base.{
  ℕ, ◌<◌, Bool, true, false, List, [], ◌∷◌, ◌++◌, Option, none, some, if◌then◌else◌, ◌⊎◌, inl, inr,
  ◌≡◌, refl, take, arith,
}
use gatus_qqbot.Errors.{Error}
use gatus_qqbot.Qqbot.Websocket.{
  Outcome, returns, panics, Ending, context_done, listened, Client, ClientCall, connect_call,
  listening_call, close_call, Run, listen_websocket, run_listening, unless_ended, run_handshake,
  handshake_call, run_connected, run_websocket_attempt,
}

-- the calls of an attempt that nothing cuts short
abbrev pub whole : Bool → List ClientCall
whole resume = connect_call ∷ handshake_call resume ∷ listening_call ∷ []

-- the calls stop somewhere, and a last call closes the client
abbrev pub IsCut : Bool → Run → Type 0
IsCut resume r =
    (n : ℕ) × (e : Error) × (0 < n)
    × (r.err ≡ some e)
    × (r.calls ≡ take n (whole resume) ++ close_call ∷ [])

-- the calls when the client is closed before the goroutine calls Listening
abbrev pub overtaken : Bool → List ClientCall
overtaken resume = connect_call ∷ handshake_call resume ∷ close_call ∷ listening_call ∷ []

abbrev pub IsAttempt : Client → Bool → Run → Type 0
IsAttempt c resume r =
    ((e : Error) × (c.connect ≡ returns (some e))
      × (r ≡ record { err = some e; calls = connect_call ∷ [] }))
    ⊎ ((o : Outcome) × (c.ending ≡ listened o)
        × (r ≡ record { err = listen_websocket o; calls = whole resume }))
    ⊎ ((e : Error) × (c.ending ≡ context_done false e)
        × (r ≡ record { err = some e; calls = overtaken resume }))
    ⊎ IsCut resume r

listening-IsAttempt :
    (c : Client) (resume : Bool) (e : Ending)
    → c.ending ≡ e
    → IsAttempt c resume (run_listening (connect_call ∷ handshake_call resume ∷ []) e)
unfolding run_listening
listening-IsAttempt c resume (context_done true e) h =
    inr (inr (inr (3, e, omega arith, refl, refl)))
listening-IsAttempt c resume (context_done false e) h = inr (inr (inl (e, h, refl)))
listening-IsAttempt c resume (listened o) h = inr (inl (o, h, refl))

unless_ended_cases {ℓ} :
    (P : Run → Type ℓ) (calls : List ClientCall) (o : Option Error) (rest : Run)
    → P rest
    → ((e : Error) → P (record { err = some e; calls = calls ++ close_call ∷ [] }))
    → P (unless_ended calls o rest)
unfolding unless_ended
unless_ended_cases P calls none rest p q = p
unless_ended_cases P calls (some e) rest p q = q e

handshake-IsAttempt :
    (c : Client) (resume : Bool) (o : Outcome)
    → IsAttempt c resume (run_handshake (connect_call ∷ handshake_call resume ∷ []) c o)
unfolding run_handshake
handshake-IsAttempt c resume (panics t) = inr (inr (inr (2, _, omega arith, refl, refl)))
handshake-IsAttempt c resume (returns (some e)) = inr (inr (inr (2, e, omega arith, refl, refl)))
handshake-IsAttempt c resume (returns none) =
    unless_ended_cases (IsAttempt c resume) (take 2 (whole resume)) c.after_handshake _
      (listening-IsAttempt c resume c.ending refl)
      (λ e. inr (inr (inr (2, e, omega arith, refl, refl))))

connected-IsAttempt :
    (c : Client) (resume : Bool) (o : Outcome)
    → c.connect ≡ o
    → IsAttempt c resume (run_connected c resume o)
unfolding run_connected
connected-IsAttempt c resume (panics t) h = inr (inr (inr (1, _, omega arith, refl, refl)))
connected-IsAttempt c resume (returns (some e)) h = inl (e, h, refl)
connected-IsAttempt c resume (returns none) h =
    unless_ended_cases (IsAttempt c resume) (take 1 (whole resume)) c.after_connect _
      (handshake-IsAttempt c resume (if resume then c.resume else c.identify))
      (λ e. inr (inr (inr (1, e, omega arith, refl, refl))))

-- An attempt ends in one of four ways: Connect returns an error, and nothing else is called; or
-- Connect, the handshake asked for and Listening are called in this order, and the attempt ends as
-- Listening does; or the context ends before the goroutine has called Listening, and Close comes
-- before it; or the calls stop at one of these, Close is the last call, and the attempt
-- reports an error.
pub run_websocket_attempt-IsAttempt :
    (c : Client) (resume : Bool) → IsAttempt c resume (run_websocket_attempt c resume)
unfolding run_websocket_attempt
run_websocket_attempt-IsAttempt c resume = connected-IsAttempt c resume c.connect refl
