-- ===== src/Qqbot/Exchange/Whole.antt =====
-- auth.go: the responses that are decoded, and the tasks that are made of them.
use gatus_qqbot.Base.{
  ℕ, ◌+◌, ◌≤◌, false, List, Option, none, some, ltb, leb, ◌==◌, ==_iff, ◌⊎◌, inl, inr, ◌≡◌, ◌↔◌,
  refl, sym, subst, ap, ◌∙◌, length, take, length-take, if_cases, inr-inj, arith,
}
use gatus_qqbot.Config.{ℤ}
use gatus_qqbot.Errors.{Error}
use gatus_qqbot.Qqbot.Exchange.{
  Reply, Http, limit_of, read_end, read_limited, on_decoded, on_bytes, on_reply, on_sent,
  on_request, on_encoded, post_json, CreateResponse, BindTask, Random, is_zero, create_id,
  create_coded, on_created, create_bind_task,
}
use gatus_qqbot.Strings.{Text, is_empty, trim_space}

-- a response of status 200, with a whole body within the limit, that decodes to `a`
abbrev pub IsDecoded {ℓ} : {A : Type ℓ} → Http A → A → Reply → Type ℓ
IsDecoded h a r =
    (r.status ≡ 200)
    × (length r.body ≤ limit_of h.max_response_bytes)
    × (r.body_error ≡ none)
    × (h.decode r.body ≡ inr a)

-- nothing fails before the response, and the response is decoded
abbrev pub IsExchanged {ℓ} : {A : Type ℓ} → Http A → A → Type ℓ
IsExchanged h a =
    (h.encode_error ≡ none)
    × (h.request_error ≡ none)
    × ((r : Reply) × (h.sent ≡ inr r) × IsDecoded h a r)

module _ {ℓ} {A : Type ℓ} (h : Http A) (a : A) where
  on_decoded_iff : (o : Error ⊎ A) → (on_decoded o ≡ inr a) ↔ (o ≡ inr a)
  unfolding on_decoded
  on_decoded_iff (inl e) = (λ h. absurd (cc), λ h. absurd (cc))
  on_decoded_iff (inr b) = (λ h. h, λ h. h)

  on_bytes-decoded :
      (limit : ℕ) (bytes : List ℕ)
      → on_bytes h limit (inr bytes) ≡ inr a
      → (length bytes ≤ limit) × (h.decode bytes ≡ inr a)
  unfolding on_bytes
  on_bytes-decoded limit bytes =
      if_cases (λ (o : Error ⊎ A). o ≡ inr a → (length bytes ≤ limit) × (h.decode bytes ≡ inr a))
        (ltb limit (length bytes)) (λ b q. absurd (cc))
        (λ b q. (ground arith, (on_decoded_iff (h.decode bytes)).0 q))

  on_bytes-within :
      (limit : ℕ) (bytes : List ℕ)
      → length bytes ≤ limit
      → h.decode bytes ≡ inr a
      → on_bytes h limit (inr bytes) ≡ inr a
  unfolding on_bytes
  on_bytes-within limit bytes l d =
      if_cases (λ (o : Error ⊎ A). o ≡ inr a) (ltb limit (length bytes))
        (λ b. absurd (ground arith)) (λ b. (on_decoded_iff (h.decode bytes)).1 d)

  -- the bytes of a body that are read, up to one above the limit
  read_end-decoded :
      (r : Reply) (limit : ℕ) (o : Option Error)
      → on_bytes h limit (read_end r.body o) ≡ inr a
      → (length r.body ≤ limit) × (o ≡ none) × (h.decode r.body ≡ inr a)
  unfolding read_end on_bytes
  read_end-decoded r limit (some e) q = absurd (cc)
  read_end-decoded r limit none q = let (l, d) = on_bytes-decoded limit r.body q in (l, refl, d)

  read-decoded :
      (r : Reply) (limit : ℕ)
      → on_bytes h limit (read_limited (limit + 1) r) ≡ inr a
      → (length r.body ≤ limit) × (r.body_error ≡ none) × (h.decode r.body ≡ inr a)
  unfolding read_limited
  read-decoded r limit =
      if_cases
        (λ (o : Error ⊎ List ℕ).
          on_bytes h limit o ≡ inr a
          → (length r.body ≤ limit) × (r.body_error ≡ none) × (h.decode r.body ≡ inr a))
        (leb (limit + 1) (length r.body))
        (λ b q.
          let (l, _) = on_bytes-decoded limit (take (limit + 1) r.body) q in
          let n = length-take (limit + 1) r.body in absurd (ground arith))
        (λ b. read_end-decoded r limit r.body_error)

  read-within :
      (r : Reply) (limit : ℕ)
      → length r.body ≤ limit
      → r.body_error ≡ none
      → h.decode r.body ≡ inr a
      → on_bytes h limit (read_limited (limit + 1) r) ≡ inr a
  unfolding read_limited read_end
  read-within r limit l e d =
      if_cases (λ (o : Error ⊎ List ℕ). on_bytes h limit o ≡ inr a)
        (leb (limit + 1) (length r.body)) (λ b. absurd (ground arith))
        (λ b. rw e (on_bytes-within limit r.body l d))

  on_reply_iff : (r : Reply) → (on_reply h r ≡ inr a) ↔ IsDecoded h a r
  unfolding on_reply
  on_reply_iff r = (
    if_cases (λ (o : Error ⊎ A). o ≡ inr a → IsDecoded h a r) (r.status == 200)
        (λ b q.
          let (l, e, d) = read-decoded r (limit_of h.max_response_bytes) q in
          ((==_iff r.status 200).0 b, l, e, d))
        (λ b q. absurd (cc)),
    λ (s, l, e, d).
        if_cases (λ (o : Error ⊎ A). o ≡ inr a) (r.status == 200)
          (λ b. read-within r (limit_of h.max_response_bytes) l e d) (λ b. absurd (ground arith)),
  )

  on_sent_iff :
      (o : Error ⊎ Reply) → (on_sent h o ≡ inr a) ↔ ((r : Reply) × (o ≡ inr r) × IsDecoded h a r)
  unfolding on_sent
  on_sent_iff (inl e) = (λ q. absurd (cc), λ (r, q, _). absurd (cc))
  on_sent_iff (inr r) = (
    λ q. (r, refl, (on_reply_iff r).0 q),
    λ (r', q, d). subst (λ x. on_reply h x ≡ inr a) (sym (inr-inj q)) ((on_reply_iff r').1 d),
  )

  on_request_iff :
      (o : Option Error)
      → (on_request h o ≡ inr a) ↔ ((o ≡ none) × ((r : Reply) × (h.sent ≡ inr r) × IsDecoded h a r))
  unfolding on_request
  on_request_iff (some e) = (λ q. absurd (cc), λ q. absurd (cc q.0))
  on_request_iff none = (λ q. (refl, (on_sent_iff h.sent).0 q), λ q. (on_sent_iff h.sent).1 q.1)

  on_encoded_iff :
      (o : Option Error)
      → (on_encoded h o ≡ inr a) ↔ (
          (o ≡ none)
          × (h.request_error ≡ none)
          × ((r : Reply) × (h.sent ≡ inr r) × IsDecoded h a r))
  unfolding on_encoded
  on_encoded_iff (some e) = (λ q. absurd (cc), λ q. absurd (cc q.0))
  on_encoded_iff none = (
    λ q. let (e, r) = (on_request_iff h.request_error).0 q in (refl, e, r),
    λ (_, e, r). (on_request_iff h.request_error).1 (e, r),
  )

  -- `postJSON` decodes a value exactly when the request is made and sent, the status is 200, the body
  -- is read whole, has at most as many bytes as the limit says, and decodes to the value.
  pub post_json_iff : (post_json h ≡ inr a) ↔ IsExchanged h a
  unfolding post_json
  post_json_iff = on_encoded_iff h.encode_error

-- a task with an id that is not blank and the first 32 bytes of the random source as its key
abbrev pub IsCreated : Random → BindTask → Type 0
IsCreated random t =
    (is_empty (trim_space t.id) ≡ false) × (length t.key ≡ 32) × (t.key ≡ take 32 random.bytes)

-- an id that the response gives, and that is not blank
abbrev IsNamed : List ℕ → BindTask → Type 0
IsNamed key t = (is_empty (trim_space t.id) ≡ false) × (t.key ≡ key)

create_id-IsNamed :
    (key : List ℕ) (o : Option Text) (t : BindTask) → create_id key o ≡ inr t → IsNamed key t
unfolding create_id
create_id-IsNamed key none t = λ h. absurd (cc)
create_id-IsNamed key (some id) t =
    if_cases (λ (o : Error ⊎ BindTask). o ≡ inr t → IsNamed key t) (is_empty (trim_space id))
      (λ b h. absurd (cc)) (λ b h. subst (IsNamed key) (inr-inj h) (b, refl))

create_coded-IsNamed :
    (key : List ℕ) (r : CreateResponse) (o : Option ℤ) (t : BindTask)
    → create_coded key r o ≡ inr t
    → IsNamed key t
unfolding create_coded
create_coded-IsNamed key r none t = λ h. absurd (cc)
create_coded-IsNamed key r (some code) t =
    if_cases (λ (o : Error ⊎ BindTask). o ≡ inr t → IsNamed key t) (is_zero code)
      (λ b. create_id-IsNamed key r.task_id t) (λ b h. absurd (cc))

on_created-IsNamed :
    (key : List ℕ) (o : Error ⊎ CreateResponse) (t : BindTask)
    → on_created key o ≡ inr t
    → IsNamed key t
unfolding on_created
on_created-IsNamed key (inl e) t h = absurd (cc)
on_created-IsNamed key (inr r) t h = create_coded-IsNamed key r r.ret_code t h

pub create_bind_task-IsCreated :
    (random : Random) (http : List ℕ → Http CreateResponse) (t : BindTask)
    → create_bind_task random http ≡ inr t
    → IsCreated random t
unfolding create_bind_task
create_bind_task-IsCreated random http t =
    if_cases (λ (o : Error ⊎ BindTask). o ≡ inr t → IsCreated random t)
      (leb 32 (length random.bytes))
      (λ b h.
        let key = take 32 random.bytes in
        let (named, same) = on_created-IsNamed key (post_json (http key)) t h in
        let n = length-take 32 random.bytes in (named, ap length same ∙ (n ∙ ground arith), same))
      (λ b h. absurd (cc))
