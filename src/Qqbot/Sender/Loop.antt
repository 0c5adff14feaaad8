-- ===== src/Qqbot/Sender/Loop.antt =====
-- sender.go: which targets the loop reaches, and what its result says about them.
use gatus_qqbot.Base.{
  ℕ, suc, Bool, true, false, ◌||◌, List, [], ◌∷◌, ◌++◌, append_assoc, append-nil, Option, none,
  some, ◌≡◌, ◌≢◌, ◌⊎◌, refl, ap, ◌∙◌, arith, inl, inr, Option-cases,
}
use gatus_qqbot.Config.{TargetConfig}
use gatus_qqbot.Errors.{
  Error, Sentinel, is, any_is, is_error, is_error-join_errors, join_errors-eq-none, any_is-append,
}
use gatus_qqbot.Qqbot.Sender.{
  Method, Call, Round, Pass, Delivery, method_of, call_of, post_error, pass_failed, pass_posted,
  pass_from, pass, after_pass, deliver_from, deliver, delivery_result, delivery_error,
}
use gatus_qqbot.Strings.{Text}

-- one call for each target of a known type, in the order of the configuration
abbrev pub every_call : Text → List TargetConfig → List Call
every_call content [] = []
every_call content (t ∷ ts) = call_of content t (method_of t) ++ every_call content ts

-- one error for each target that is not served, in that order
abbrev pub error_of : TargetConfig → Option Error → List Error
error_of t none = []
error_of t (some e) = delivery_error t e ∷ []

abbrev pub every_error : (ℕ → Round) → ℕ → List TargetConfig → List Error
every_error rounds i [] = []
every_error rounds i (t ∷ ts) =
    error_of t (post_error t (rounds i) (method_of t)) ++ every_error rounds (suc i) ts

-- the context does not end
abbrev pub Endures : (ℕ → Round) → Type 0
Endures rounds = (i : ℕ) → ((rounds i).before ≡ none) × ((rounds i).after ≡ none)

-- wherever the loop looks, the context has not ended or has ended with the error `c`
abbrev pub EndsWith : Error → (ℕ → Round) → Type 0
EndsWith c rounds =
    (i : ℕ)
    → (((rounds i).before ≡ none) ⊎ ((rounds i).before ≡ some c))
      × (((rounds i).after ≡ none) ⊎ ((rounds i).after ≡ some c))

-- What one pass can be.
abbrev PassCases : Text → TargetConfig → Round → Pass → Type 0
PassCases content t r p =
    ((e : Error) × (r.before ≡ some e) × (p ≡ record { errs = e ∷ []; calls = []; go_on = false }))
    ⊎ ((r.before ≡ none)
        × (post_error t r (method_of t) ≡ none)
        × (p ≡ record { errs = []; calls = call_of content t (method_of t); go_on = true }))
    ⊎ ((e : Error) × (r.before ≡ none)
        × (post_error t r (method_of t) ≡ some e)
        × (r.after ≡ none)
        × (p ≡ record {
          errs = delivery_error t e ∷ [];
          calls = call_of content t (method_of t);
          go_on = true;
        }))
    ⊎ ((e : Error) × (c : Error) × (r.before ≡ none)
        × (post_error t r (method_of t) ≡ some e)
        × (r.after ≡ some c)
        × (p ≡ record {
          errs = delivery_error t e ∷ c ∷ [];
          calls = call_of content t (method_of t);
          go_on = false;
        }))

pass_cases :
    (content : Text) (t : TargetConfig) (r : Round) → PassCases content t r (pass content t r)
unfolding pass pass_from pass_posted pass_failed post_error call_of
pass_cases content t r = elim (Option-cases r.before) [
  | inr (e, b) ↦ inl (e, b, rw b refl)
  | inl b ↦ inr (elim (Option-cases (post_error t r (method_of t))) [
    | inl p ↦ inl (b, p, rw (b, p) refl)
    | inr (e, p) ↦ inr (elim (Option-cases r.after) [
      | inl a ↦ inl (e, b, p, a, rw (b, p, a) refl)
      | inr (c, a) ↦ inr (e, c, b, p, a, rw (b, p, a) refl)
    ])
  ])
]

deliver_calls_from :
    (rounds : ℕ → Round) (i : ℕ) (content : Text) (ts : List TargetConfig)
    → (rest : List Call) × ((deliver_from rounds i content ts).calls ++ rest
        ≡ every_call content ts)
unfolding deliver_from
deliver_calls_from rounds i content [] = ([], refl)
deliver_calls_from rounds i content (t ∷ ts) =
    let (rest, ih) = deliver_calls_from rounds (suc i) content ts in
    let calls = call_of content t (method_of t) in
    elim (pass_cases content t (rounds i)) [
      | inl (e, _, p) ↦ (every_call content (t ∷ ts), rw p refl)
      | inr (inl (_, _, p)) ↦ (rest, rw p (append_assoc calls _ rest ∙ ap (◌++◌ calls) ih))
      | inr (inr (inl (e, _, _, _, p))) ↦
          (rest, rw p (append_assoc calls _ rest ∙ ap (◌++◌ calls) ih))
      | inr (inr (inr (e, c, _, _, _, p))) ↦
          (every_call content ts, rw p (ap (λ u. u ++ every_call content ts) (append-nil calls)))
    ]

-- Whatever fails, the calls of the API are the first ones of the targets in the configured order, one
-- call for each target: none is repeated, skipped or made out of order.
pub deliver_calls :
    (rounds : ℕ → Round) (content : Text) (ts : List TargetConfig)
    → (rest : List Call) × ((deliver rounds content ts).calls ++ rest ≡ every_call content ts)
unfolding deliver
deliver_calls rounds content ts = deliver_calls_from rounds 0 content ts

deliver-Endures_from :
    (rounds : ℕ → Round) (i : ℕ) (content : Text) (ts : List TargetConfig)
    → Endures rounds
    → deliver_from rounds i content ts
      ≡ record { errs = every_error rounds i ts; calls = every_call content ts }
unfolding deliver_from
deliver-Endures_from rounds i content [] h = refl
deliver-Endures_from rounds i content (t ∷ ts) h =
    let ih = deliver-Endures_from rounds (suc i) content ts h in
    elim (pass_cases content t (rounds i)) [
      | inl (e, b, p) ↦ absurd (cc (h i).0)
      | inr (inl (_, q, p)) ↦ rw (p, q, ih) refl
      | inr (inr (inl (e, _, q, _, p))) ↦ rw (p, q, ih) refl
      | inr (inr (inr (e, c, _, _, a, p))) ↦ absurd (cc (h i).1)
    ]

-- While the context endures, every target of a known type is attempted whatever the earlier ones
-- returned, and the errors are those of the targets that failed, in order.
pub deliver-Endures :
    (rounds : ℕ → Round) (content : Text) (ts : List TargetConfig)
    → Endures rounds
    → deliver rounds content ts
      ≡ record { errs = every_error rounds 0 ts; calls = every_call content ts }
unfolding deliver
deliver-Endures rounds content ts h = deliver-Endures_from rounds 0 content ts h

-- Every target was called by the method of its type, and the API reported no error.
abbrev pub AllServed : (ℕ → Round) → ℕ → Text → List TargetConfig → List Call → Type 0
AllServed rounds i content [] calls = calls ≡ []
AllServed rounds i content (t ∷ ts) calls =
    (m : Method) × (rest : List Call) × (method_of t ≡ some m)
    × ((rounds i).posted ≡ none)
    × (calls ≡ record { method = m; target_id = t.id; content = content } ∷ rest)
    × AllServed rounds (suc i) content ts rest

post_error-none :
    (t : TargetConfig) (r : Round) (o : Option Method)
    → post_error t r o ≡ none
    → (m : Method) × (o ≡ some m) × (r.posted ≡ none)
unfolding post_error
post_error-none t r none h = cc
post_error-none t r (some m) h = (m, refl, h)

append-eq-nil {ℓ} : {A : Type ℓ} (x : A) (xs ys : List A) → (x ∷ xs) ++ ys ≡ [] → ⊥
append-eq-nil x xs ys h = cc

pass_served :
    (content : Text) (t : TargetConfig) (r : Round) (p : Pass) (rest : Delivery)
    → PassCases content t r p
    → (after_pass p rest).errs ≡ []
    → (m : Method) × (method_of t ≡ some m)
      × (r.posted ≡ none)
      × (rest.errs ≡ [])
      × ((after_pass p rest).calls
          ≡ record { method = m; target_id = t.id; content = content } ∷ rest.calls)
unfolding call_of
pass_served content t r p rest (inl (e, b, q)) h = absurd (append-eq-nil e [] _ (rw q at h))
pass_served content t r p rest (inr (inl (_, n, q))) h =
    let (m, known, posted) = post_error-none t r (method_of t) n in
    (m, known, posted, rw q at h, rw (q, known) refl)
pass_served content t r p rest (inr (inr (inl (e, _, _, _, q)))) h =
    absurd (append-eq-nil _ [] _ (rw q at h))
pass_served content t r p rest (inr (inr (inr (e, c, _, _, _, q)))) h =
    absurd (append-eq-nil _ (c ∷ []) _ (rw q at h))

deliver_served_from :
    (rounds : ℕ → Round) (i : ℕ) (content : Text) (ts : List TargetConfig)
    → (deliver_from rounds i content ts).errs ≡ []
    → AllServed rounds i content ts (deliver_from rounds i content ts).calls
unfolding deliver_from
deliver_served_from rounds i content [] h = refl
deliver_served_from rounds i content (t ∷ ts) h =
    let (m, known, posted, quiet, calls) =
      pass_served content t (rounds i) (pass content t (rounds i))
        (deliver_from rounds (suc i) content ts) (pass_cases content t (rounds i)) h in
    (m, _, known, posted, calls, deliver_served_from rounds (suc i) content ts quiet)

-- If the loop reports no error, then every target was called once, in order, by the method of its
-- type, and the API reported no error for any of them.
pub deliver_served :
    (rounds : ℕ → Round) (content : Text) (ts : List TargetConfig)
    → delivery_result (deliver rounds content ts) ≡ none
    → AllServed rounds 0 content ts (deliver rounds content ts).calls
unfolding delivery_result deliver
deliver_served rounds content ts h =
    deliver_served_from rounds 0 content ts (join_errors-eq-none _ h)

true_or : (a b : Bool) → a ≡ true → (a || b) ≡ true
true_or a b h = rw h

or_true : (a b : Bool) → b ≡ true → (a || b) ≡ true
or_true true b h = refl
or_true false b h = h

is_ended :
    (s : Sentinel) (c e : Error) (o : Option Error)
    → is s c ≡ true
    → (o ≡ none) ⊎ (o ≡ some c)
    → o ≡ some e
    → is s e ≡ true
is_ended s c e o k h b = ground arith

-- A pass reports the end of the context, or makes its call and lets the loop go on.
pass_ended :
    (s : Sentinel) (c : Error) (content : Text) (t : TargetConfig) (r : Round) (p : Pass)
    (rest : Delivery)
    → is s c ≡ true
    → ((r.before ≡ none) ⊎ (r.before ≡ some c)) × ((r.after ≡ none) ⊎ (r.after ≡ some c))
    → PassCases content t r p
    → (any_is s (after_pass p rest).errs ≡ true)
      ⊎ ((p.go_on ≡ true) × (p.calls ≡ call_of content t (method_of t)))
unfolding any_is
pass_ended s c content t r p rest k h (inl (e, b, q)) =
    inl (rw q (true_or _ _ (is_ended s c e _ k h.0 b)))
pass_ended s c content t r p rest k h (inr (inl (_, n, q))) = inr (rw q refl, rw q refl)
pass_ended s c content t r p rest k h (inr (inr (inl (e, _, _, _, q)))) = inr (rw q refl, rw q refl)
pass_ended s c content t r p rest k h (inr (inr (inr (e, d, _, _, a, q)))) =
    inl (rw q (or_true _ _ (true_or _ _ (is_ended s c d _ k h.1 a))))

deliver_ended_from :
    (s : Sentinel) (c : Error) (rounds : ℕ → Round) (i : ℕ) (content : Text)
    (ts : List TargetConfig)
    → is s c ≡ true
    → EndsWith c rounds
    → (any_is s (deliver_from rounds i content ts).errs ≡ true)
      ⊎ ((deliver_from rounds i content ts).calls ≡ every_call content ts)
unfolding deliver_from
deliver_ended_from s c rounds i content [] k h = inr refl
deliver_ended_from s c rounds i content (t ∷ ts) k h =
    let rest = deliver_from rounds (suc i) content ts in
    let p = pass content t (rounds i) in
    elim (pass_ended s c content t (rounds i) p rest k (h i) (pass_cases content t (rounds i))) [
      | inl e ↦ inl e
      | inr (g, calls) ↦ elim (deliver_ended_from s c rounds (suc i) content ts k h) [
        | inl e ↦ inl (rw (g, any_is-append s p.errs rest.errs) (or_true (any_is s p.errs) _ e))
        | inr e ↦ inr (rw (g, calls, e) refl)
      ]
    ]

-- If the loop leaves a target of a known type out because the context ended with `c`, then what it
-- returns is `c` to errors.Is.
pub deliver_ended :
    (s : Sentinel) (c : Error) (rounds : ℕ → Round) (content : Text) (ts : List TargetConfig)
    → is s c ≡ true
    → EndsWith c rounds
    → (deliver rounds content ts).calls ≢ every_call content ts
    → is_error s (delivery_result (deliver rounds content ts)) ≡ true
unfolding deliver delivery_result
deliver_ended s c rounds content ts k h missed =
    elim (deliver_ended_from s c rounds 0 content ts k h) [
      | inl e ↦ is_error-join_errors s _ ∙ e
      | inr e ↦ absurd (missed e)
    ]
