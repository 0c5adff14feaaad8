-- ===== src/Server/Life/Shutdown.antt =====
-- server.go: how the HTTP server ends, and what has been done by then.
use gatus_qqbot.Base.{
  true, false, List, [], ◌∷◌, ◌++◌, Option, none, some, ◌⊎◌, inl, inr, ◌≡◌, refl, ap, ◌∙◌, if_cases,
}
use gatus_qqbot.Errors.{Error, wrap, is, server_closed, join_two}
use gatus_qqbot.Server.Life.{
  Stop, served, context_done, Script, Call, listen_call, serve_call, shutdown_call, close_call,
  receive_call, cancel_call, Run, serve_result, run_shutdown, run_stop, run_listening, run,
  http_result, http_service,
}
use gatus_qqbot.Strings.{Text, codes}

-- `Serve` has returned `nil` or http.ErrServerClosed.
abbrev pub IsClosed : Option Error → Type 0
IsClosed none = Unit
IsClosed (some e) = is server_closed e ≡ true

-- The context had not ended, and the address could be listened on.
abbrev pub Listens : Script → Type 0
Listens s = (s.ended ≡ false) × (s.listen ≡ none)

-- The ends of a run without an error: it never listened; `Serve` returned; or the server was shut
-- down, and `Serve` returned.
abbrev pub IsQuiet : Script → List Call → Type 0
IsQuiet s calls =
    ((s.ended ≡ true) × (calls ≡ []))
    ⊎ ((e : Option Error) × Listens s
        × (s.stop ≡ served e)
        × IsClosed e
        × (calls ≡ listen_call ∷ serve_call ∷ receive_call ∷ []))
    ⊎ ((close : Option Error) × (e : Option Error) × Listens s
        × (s.stop ≡ context_done none close e)
        × IsClosed e
        × (calls ≡ listen_call ∷ serve_call ∷ shutdown_call ∷ receive_call ∷ []))

-- The ends with an error: the address cannot be listened on; `Serve` returned an error of its own,
-- before the context ended or behind a shutdown; or the shutdown failed, and the server was closed.
abbrev pub IsFailed : Script → List Call → Type 0
IsFailed s calls =
    ((e : Error) × (s.ended ≡ false) × (s.listen ≡ some e) × (calls ≡ listen_call ∷ []))
    ⊎ ((e : Error) × Listens s
        × (s.stop ≡ served (some e))
        × (is server_closed e ≡ false)
        × (calls ≡ listen_call ∷ serve_call ∷ receive_call ∷ []))
    ⊎ ((close : Option Error) × (e : Error) × Listens s
        × (s.stop ≡ context_done none close (some e))
        × (is server_closed e ≡ false)
        × (calls ≡ listen_call ∷ serve_call ∷ shutdown_call ∷ receive_call ∷ []))
    ⊎ ((e : Error) × (close : Option Error) × (serve : Option Error) × Listens s
        × (s.stop ≡ context_done (some e) close serve)
        × (calls ≡ listen_call ∷ serve_call ∷ shutdown_call ∷ close_call ∷ []))

-- how a run ends, with its result
abbrev pub IsEnd : Script → Run → Type 0
IsEnd s r =
    ((r.result ≡ none) × IsQuiet s r.calls)
    ⊎ ((e : Error) × (r.result ≡ some e) × IsFailed s r.calls)

serve_result_cases :
    (e : Option Error)
    → ((serve_result e ≡ none) × IsClosed e)
      ⊎ ((x : Error) × (e ≡ some x) × (serve_result e ≡ some x) × (is server_closed x ≡ false))
unfolding serve_result
serve_result_cases none = inl (refl, tt)
serve_result_cases (some e) =
    if_cases
      (λ (o : Option Error).
        ((o ≡ none) × (is server_closed e ≡ true))
        ⊎ ((x : Error) × (some e ≡ some x) × (o ≡ some x) × (is server_closed x ≡ false)))
      (is server_closed e) (λ h. inl (refl, h)) (λ h. inr (e, refl, refl, h))

abbrev with_calls : Run → Run
with_calls r = record r { calls = listen_call ∷ serve_call ∷ r.calls }

join_two-some : (e : Error) (f : Option Error) → (x : Error) × (join_two (some e) f ≡ some x)
unfolding join_two
join_two-some e none = (_, refl)
join_two-some e (some f) = (_, refl)

run_stop-IsEnd :
    (s : Script) (stop : Stop) → Listens s → s.stop ≡ stop → IsEnd s (with_calls (run_stop stop))
unfolding run_stop run_shutdown
run_stop-IsEnd s (served e) l h = elim (serve_result_cases e) [
  | inl (r, c) ↦ inl (r, inr (inl (e, l, h, c, refl)))
  | inr (x, q, r, c) ↦ inr (x, r, inr (inl (x, l, h ∙ ap served q, c, refl)))
]
run_stop-IsEnd s (context_done none close e) l h = elim (serve_result_cases e) [
  | inl (r, c) ↦ inl (r, inr (inr (close, e, l, h, c, refl)))
  | inr (x, q, r, c) ↦
      inr (x, r, inr (inr (inl (close, x, l, h ∙ ap (context_done none close) q, c, refl))))
]
run_stop-IsEnd s (context_done (some e) close serve) l h =
    let (x, q) = join_two-some (wrap (codes "graceful HTTP shutdown: ") e) close in
    inr (x, q, inr (inr (inr (e, close, serve, l, h, refl))))

run_listening-IsEnd :
    (address : Text) (s : Script) (o : Option Error)
    → s.ended ≡ false
    → s.listen ≡ o
    → IsEnd s (run_listening address s.stop o)
unfolding run_listening
run_listening-IsEnd address s (some e) d h = inr (_, refl, inl (e, d, h, refl))
run_listening-IsEnd address s none d h = run_stop-IsEnd s s.stop (d, h) refl

run-IsEnd : (address : Text) (s : Script) → IsEnd s (run address s)
unfolding run
run-IsEnd address s =
    if_cases (IsEnd s) s.ended (λ h. inl (refl, inl (h, refl)))
      (λ h. run_listening-IsEnd address s s.listen h refl)

-- the calls before the deliveries are cancelled
abbrev pub IsServiceEnd : Script → Run → Type 0
IsServiceEnd s r =
    (calls : List Call) × (r.calls ≡ calls ++ cancel_call ∷ [])
    × (((r.result ≡ none) × IsQuiet s calls)
        ⊎ ((e : Error) × (r.result ≡ some (wrap (codes "run HTTP server: ") e)) × IsFailed s calls))

http_result-IsEnd :
    (s : Script) (r : Run)
    → IsEnd s r
    → ((http_result r.result ≡ none) × IsQuiet s r.calls)
      ⊎ ((e : Error) × (http_result r.result ≡ some (wrap (codes "run HTTP server: ") e))
          × IsFailed s r.calls)
unfolding http_result
http_result-IsEnd s r (inl (n, q)) = inl (rw n refl, q)
http_result-IsEnd s r (inr (e, n, f)) = inr (e, rw n refl, f)

-- The HTTP service of `serve` ends without an error only in these ways: its context had ended
-- before it listened; `Serve` returned with `nil` or http.ErrServerClosed; or the context ended, the
-- server was shut down in time and `Serve` returned in such a way. It ends with an error when it
-- cannot listen, when `Serve` returns any other error, or when the shutdown fails; the server has
-- then been closed. Only in the first of these ways had the context ended before it listened, and
-- in all but the first and the failure to listen net.Listen had returned no error. In every case the
-- context of the deliveries is cancelled last, and only once.
pub http_service-IsServiceEnd :
    (address : Text) (s : Script) → IsServiceEnd s (http_service address s)
unfolding http_service
http_service-IsServiceEnd address s =
    ((run address s).calls, refl, http_result-IsEnd s (run address s) (run-IsEnd address s))
