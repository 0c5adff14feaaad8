-- ===== src/Qqbot/Binding/Bound.antt =====
-- auth.go: where the credentials of a binding come from.
use gatus_qqbot.Base.{
  ℕ, zero, suc, Bool, true, false, List, [], ◌∷◌, Option, none, some, ◌⊎◌, inl, inr, ◌≡◌, refl,
  length, get_elem?, if_cases, arith,
}
use gatus_qqbot.Errors.{Error}
use gatus_qqbot.Qqbot.Binding.{
  BindStatus, none_yet, pending, completed, expired, unknown, QrCredentials, BindPollResult,
  poll_bind_result, Poll, Binding, bound, qr_expired, failed, polling, with_secret, on_completed,
  or_wait, on_status, on_poll, wait_for_binding, Round, Connected, Connector, after_binding, on_url,
  on_task, connect_rounds, connect, waited,
}
use gatus_qqbot.Qqbot.ConnectUrl.{build_connect_url}
use gatus_qqbot.Qqbot.Exchange.{BindTask, create_bind_task}
use gatus_qqbot.Qqbot.Secret.{Crypto, decrypt_bind_secret}
use gatus_qqbot.Qqbot.Secret.Opened.{IsSecret, decrypt_bind_secret-IsSecret}
use gatus_qqbot.Strings.{Text, is_empty, trim_space}

-- The poll `p` reports a completed binding with these credentials, the secret encrypted under `key`.
abbrev pub Completes : Crypto → List ℕ → QrCredentials → Poll → Type 0
Completes x key c p =
    (r : BindPollResult) × (poll_bind_result p.exchange ≡ inr r)
    × (r.status ≡ completed)
    × (is_empty (trim_space r.app_id) ≡ false)
    × (decrypt_bind_secret x r.encrypted_secret key ≡ inr c.app_secret)
    × (c.app_id ≡ r.app_id)
    × (c.user_open_id ≡ r.user_open_id)

with_secret-bound :
    (r : BindPollResult) (o : Error ⊎ Text) (c : QrCredentials)
    → with_secret r o ≡ bound c
    → (o ≡ inr c.app_secret) × (c.app_id ≡ r.app_id) × (c.user_open_id ≡ r.user_open_id)
unfolding with_secret
with_secret-bound r (inl e) c h = absurd (cc)
with_secret-bound r (inr s) c h = ground arith

abbrev IsOpened : Crypto → List ℕ → BindPollResult → QrCredentials → Type 0
IsOpened x key r c =
    (is_empty (trim_space r.app_id) ≡ false)
    × (decrypt_bind_secret x r.encrypted_secret key ≡ inr c.app_secret)
    × (c.app_id ≡ r.app_id)
    × (c.user_open_id ≡ r.user_open_id)

on_completed-bound :
    (x : Crypto) (key : List ℕ) (r : BindPollResult) (c : QrCredentials)
    → on_completed x key r ≡ bound c
    → IsOpened x key r c
unfolding on_completed
on_completed-bound x key r c =
    if_cases (λ (b : Binding). b ≡ bound c → IsOpened x key r c) (is_empty (trim_space r.app_id))
      (λ b h. absurd (cc))
      (λ b.
        if_cases (λ (b : Binding). b ≡ bound c → IsOpened x key r c) (is_empty r.encrypted_secret)
          (λ b' h. absurd (cc))
          (λ b' h.
            let (u, v, w) =
              with_secret-bound r (decrypt_bind_secret x r.encrypted_secret key) c h in
            (b, u, v, w)))

or_wait-bound :
    (o : Option Error) (rest : Binding) (c : QrCredentials)
    → or_wait o rest ≡ bound c
    → rest ≡ bound c
unfolding or_wait
or_wait-bound none rest c h = h
or_wait-bound (some e) rest c h = absurd (cc)

module _ (x : Crypto) (key : List ℕ) (c : QrCredentials) where
  on_status-bound :
      (p : Poll) (r : BindPollResult) (s : BindStatus) (rest : Binding)
      → poll_bind_result p.exchange ≡ inr r
      → r.status ≡ s
      → on_status x key p r s rest ≡ bound c
      → Completes x key c p ⊎ (rest ≡ bound c)
  unfolding on_status
  on_status-bound p r completed rest q s h =
      let (a, b, d, e) = on_completed-bound x key r c h in inl (r, q, s, a, b, d, e)
  on_status-bound p r expired rest q s h = absurd (cc)
  on_status-bound p r none_yet rest q s h = inr (or_wait-bound (waited p) rest c h)
  on_status-bound p r pending rest q s h = inr (or_wait-bound (waited p) rest c h)
  on_status-bound p r unknown rest q s h = inr (or_wait-bound (waited p) rest c h)

  on_error-bound :
      (p : Poll) (o : Option Error) (rest : Binding)
      → (elim o as (λ _. Binding) [ some d ↦ failed d | none ↦ or_wait (waited p) rest ]) ≡ bound c
      → rest ≡ bound c
  on_error-bound p none rest h = or_wait-bound (waited p) rest c h
  on_error-bound p (some d) rest h = absurd (cc)

  on_poll-bound :
      (p : Poll) (o : Error ⊎ BindPollResult) (rest : Binding)
      → poll_bind_result p.exchange ≡ o
      → on_poll x key p o rest ≡ bound c
      → Completes x key c p ⊎ (rest ≡ bound c)
  unfolding on_poll
  on_poll-bound p (inl e) rest q h = inr (on_error-bound p p.ended rest h)
  on_poll-bound p (inr r) rest q h = on_status-bound p r r.status rest q refl h

  wait_for_binding-bound :
      (ps : List Poll)
      → wait_for_binding x key ps ≡ bound c
      → (i : ℕ) × (p : Poll) × (get_elem? ps i ≡ some p) × Completes x key c p
  unfolding wait_for_binding
  wait_for_binding-bound [] h = absurd (cc)
  wait_for_binding-bound (p ∷ ps) h =
      elim (on_poll-bound p (poll_bind_result p.exchange) (wait_for_binding x key ps) refl h) [
        | inl k ↦ (0, p, refl, k)
        | inr k ↦ let (i, p', at, k') = wait_for_binding-bound ps k in (suc i, p', at, k')
      ]

-- a round of `Connect` whose task was created with the key `key`, and completed with `c`
abbrev pub IsBoundAt : Connector → List Round → QrCredentials → Connected → Type 0
IsBoundAt k rs c d =
    (j : ℕ) × (r : Round) × (t : BindTask) × (i : ℕ) × (p : Poll) × (get_elem? rs j ≡ some r)
    × (create_bind_task r.random r.http ≡ inr t)
    × (length d.shown ≡ suc j)
    × (get_elem? r.polls i ≡ some p)
    × Completes k.crypto t.key c p
    × IsSecret c.app_secret t.key

-- how a round whose QR code was shown goes on
after_binding-bound :
    (url : Text) (b : Binding) (rest : Connected) (c : QrCredentials)
    → (after_binding url b rest).result ≡ bound c
    → ((b ≡ bound c) × (length (after_binding url b rest).shown ≡ 1))
      ⊎ ((rest.result ≡ bound c)
          × (length (after_binding url b rest).shown ≡ suc (length rest.shown)))
unfolding after_binding
after_binding-bound url qr_expired rest c h = inr (h, refl)
after_binding-bound url (bound d) rest c h = inl (h, refl)
after_binding-bound url (failed e) rest c h = inl (h, refl)
after_binding-bound url polling rest c h = inl (h, refl)

module _ (k : Connector) (c : QrCredentials) where
  later_round :
      (r : Round) (rs : List Round) (d d' : Connected)
      → length d'.shown ≡ suc (length d.shown)
      → IsBoundAt k rs c d
      → IsBoundAt k (r ∷ rs) c d'
  later_round r rs d d' l (j, r', t, i, p, a, m, n, b, e, s) =
      (suc j, r', t, i, p, a, m, omega (arith, l, n), b, e, s)

  on_url-bound :
      (r : Round) (rs : List Round) (t : BindTask) (u : Error ⊎ Text) (rest : Connected)
      → create_bind_task r.random r.http ≡ inr t
      → (rest.result ≡ bound c → IsBoundAt k rs c rest)
      → (on_url k.crypto t.key r.polls u rest).result ≡ bound c
      → IsBoundAt k (r ∷ rs) c (on_url k.crypto t.key r.polls u rest)
  unfolding on_url
  on_url-bound r rs t (inl e) rest m ih h = absurd (cc)
  on_url-bound r rs t (inr url) rest m ih h =
      elim (after_binding-bound url (wait_for_binding k.crypto t.key r.polls) rest c h) [
        | inl (b, l) ↦
            let (i, p, g, e) = wait_for_binding-bound k.crypto t.key c r.polls b in
            let secret =
              decrypt_bind_secret-IsSecret k.crypto e.0.encrypted_secret t.key c.app_secret e.4 in
            (zero, r, t, i, p, refl, m, l, g, e, secret)
        | inr (q, l) ↦
            later_round r rs rest (after_binding url (wait_for_binding k.crypto t.key r.polls) rest)
              l (ih q)
      ]

  on_task-bound :
      (r : Round) (rs : List Round) (o : Error ⊎ BindTask) (rest : Connected)
      → create_bind_task r.random r.http ≡ o
      → (rest.result ≡ bound c → IsBoundAt k rs c rest)
      → (on_task k r.polls o rest).result ≡ bound c
      → IsBoundAt k (r ∷ rs) c (on_task k r.polls o rest)
  unfolding on_task
  on_task-bound r rs (inl e) rest m ih h = absurd (cc)
  on_task-bound r rs (inr t) rest m ih h =
      on_url-bound r rs t (build_connect_url k.page t.id k.source) rest m ih h

  connect_rounds-bound :
      (rs : List Round)
      → (connect_rounds k rs).result ≡ bound c
      → IsBoundAt k rs c (connect_rounds k rs)
  unfolding connect_rounds
  connect_rounds-bound [] h = absurd (cc)
  connect_rounds-bound (r ∷ rs) h =
      on_task-bound r rs (create_bind_task r.random r.http) (connect_rounds k rs) refl
        (connect_rounds-bound rs) h

  -- If `Connect` returns credentials, then one poll of the last task whose QR code it showed reported a
  -- completed binding with this app id, which is not blank, and this user; the secret is what the
  -- encrypted secret of that poll opens to under the key of that task, which has 32 bytes; and it is
  -- not empty and valid UTF-8.
  pub connect-IsBoundAt :
      (ended : Option Error) (ready : Bool) (rs : List Round)
      → (connect ended ready k rs).result ≡ bound c
      → IsBoundAt k rs c (connect ended ready k rs)
  unfolding connect
  connect-IsBoundAt (some e) ready rs h = absurd (cc)
  connect-IsBoundAt none true rs h = connect_rounds-bound rs h
  connect-IsBoundAt none false rs h = absurd (cc)
