-- ===== src/Qqbot/Queue/Ahead.antt =====
-- sender.go: how far the loop of one call of `Send` is, seen from the whole loop.
use gatus_qqbot.Base.{
  ℕ, zero, suc, List, [], ◌∷◌, ◌++◌, append-nil, append_assoc, none, ◌≡◌, refl, ap, ◌∙◌,
  if◌then◌else◌, inl, inr, Bool-cases,
}
use gatus_qqbot.Config.{TargetConfig}
use gatus_qqbot.Errors.{Error}
use gatus_qqbot.Qqbot.Queue.{Sender}
use gatus_qqbot.Qqbot.Sender.{Call, Round, Pass, pass, Delivery, after_pass, deliver_from, deliver}
use gatus_qqbot.Strings.{Text}

-- the errors and the calls of a loop, behind earlier ones
abbrev pub behind : List Error → List Call → Delivery → Delivery
behind errs calls d = record { errs = errs ++ d.errs; calls = calls ++ d.calls }

-- The loop over all targets, which has these errors and calls behind it and these targets ahead:
-- whatever the targets ahead will meet, some rounds make `deliver` do all of it.
abbrev pub Ahead : Sender → Text → List TargetConfig → List Error → List Call → Type 0
Ahead sender content ts errs calls =
    (later : ℕ → Round)
    → (rounds : ℕ → Round) × (deliver rounds content sender.targets
        ≡ behind errs calls (deliver_from later 0 content ts))

pub start-Ahead : (sender : Sender) (content : Text) → Ahead sender content sender.targets [] []
unfolding deliver
start-Ahead sender content later = (later, refl)

-- a round in front of others
abbrev first_round : Round → (ℕ → Round) → ℕ → Round
first_round r later zero = r
first_round r later (suc i) = later i

deliver_from-first_round :
    (r : Round) (later : ℕ → Round) (i : ℕ) (content : Text) (ts : List TargetConfig)
    → deliver_from (first_round r later) (suc i) content ts ≡ deliver_from later i content ts
unfolding deliver_from
deliver_from-first_round r later i content [] = refl
deliver_from-first_round r later i content (t ∷ ts) =
    ap (after_pass (pass content t (later i))) (deliver_from-first_round r later (suc i) content ts)

deliver_from-pass :
    (r : Round) (later : ℕ → Round) (content : Text) (t : TargetConfig) (ts : List TargetConfig)
    → deliver_from (first_round r later) 0 content (t ∷ ts)
      ≡ after_pass (pass content t r) (deliver_from later 0 content ts)
unfolding deliver_from
deliver_from-pass r later content t ts =
    ap (after_pass (pass content t r)) (deliver_from-first_round r later 0 content ts)

-- the targets behind a pass
abbrev pub remaining : Pass → List TargetConfig → List TargetConfig
remaining p ts = if p.go_on then ts else []

after_pass-behind :
    (p : Pass) (later : ℕ → Round) (content : Text) (ts : List TargetConfig)
    → after_pass p (deliver_from later 0 content ts)
      ≡ behind p.errs p.calls (deliver_from later 0 content (remaining p ts))
unfolding deliver_from
after_pass-behind p later content ts = elim (Bool-cases p.go_on) [
  | inl h ↦ rw h refl
  | inr h ↦ rw h refl
]

behind_assoc :
    (errs es : List Error) (calls cs : List Call) (d : Delivery)
    → behind errs calls (behind es cs d) ≡ behind (errs ++ es) (calls ++ cs) d
behind_assoc errs es calls cs d = rw (append_assoc, append_assoc) refl

pub pass-Ahead :
    (sender : Sender) (content : Text) (t : TargetConfig) (ts : List TargetConfig)
    (errs : List Error) (calls : List Call) (r : Round)
    → Ahead sender content (t ∷ ts) errs calls
    → let p = pass content t r in
      Ahead sender content (remaining p ts) (errs ++ p.errs) (calls ++ p.calls)
pass-Ahead sender content t ts errs calls r h later =
    let p = pass content t r in
    let (rounds, e) = h (first_round r later) in
    (
      rounds,
      e
          ∙ (ap (behind errs calls)
                (deliver_from-pass r later content t ts ∙ after_pass-behind p later content ts)
              ∙ behind_assoc errs p.errs calls p.calls
                  (deliver_from later 0 content (remaining p ts))),
    )

-- with no target ahead, the loop is over
pub done-Ahead :
    (sender : Sender) (content : Text) (errs : List Error) (calls : List Call)
    → Ahead sender content [] errs calls
    → (rounds : ℕ → Round) × (deliver rounds content sender.targets
        ≡ record { errs = errs; calls = calls })
done-Ahead sender content errs calls h =
    let (rounds, e) = h (λ i. record { before = none; posted = none; after = none }) in
    (rounds, e ∙ unfold deliver_from in (rw (append-nil, append-nil) refl))
