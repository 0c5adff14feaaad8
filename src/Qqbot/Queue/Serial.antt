-- ===== src/Qqbot/Queue/Serial.antt =====
-- sender.go: the calls of the API that concurrent calls of `Send` make, as deliveries one after the other.
pub mod Owners
pub mod Moves
pub mod Reachable
use gatus_qqbot.Base.{
  ℕ, ◌+◌, ◌≤◌, Bool, true, false, List, [], ◌∷◌, ◌++◌, append-nil, append_assoc, Option, none, some,
  ◌≡◌, ◌⊎◌, refl, sym, subst, ap, ◌∙◌, ltb, Bool-cases, inl, inr, arith,
}
use gatus_qqbot.Config.{TargetConfig}
use gatus_qqbot.Errors.{Error, join_errors}
use gatus_qqbot.Qqbot.Queue.{
  Sender, Slots, Stage, entering, selecting, waiting, acquired, posting, returned, Process, Move,
  stay, is_delivering,
}
use gatus_qqbot.Qqbot.Queue.Ahead.{Ahead, done-Ahead}
use gatus_qqbot.Qqbot.Sender.{Call, Round, Delivery, deliver, delivery_result}
use gatus_qqbot.Qqbot.Sender.Loop.{AllServed, deliver_served}
use gatus_qqbot.Strings.{Text}

-- a delivery that is over: the call of `Send` that made it, its message, and what its loop met
pub record Past : Type 0 where
  pub process : ℕ
  pub content : Text
  pub rounds : ℕ → Round

abbrev pub calls_of : Sender → Past → List Call
calls_of sender d = (deliver d.rounds d.content sender.targets).calls

abbrev pub all_calls : Sender → List Past → List Call
all_calls sender [] = []
all_calls sender (d ∷ ds) = calls_of sender d ++ all_calls sender ds

pub all_calls-append :
    (sender : Sender) (ds es : List Past)
    → all_calls sender (ds ++ es) ≡ all_calls sender ds ++ all_calls sender es
all_calls-append sender [] es = refl
all_calls-append sender (d ∷ ds) es =
    ap (λ x. calls_of sender d ++ x) (all_calls-append sender ds es)
    ∙ sym (append_assoc (calls_of sender d) (all_calls sender ds) (all_calls sender es))

-- One of the deliveries is that of call `i`, and in it every target has got the message.
abbrev pub IsServed : Sender → List Past → ℕ → Text → Type 0
IsServed sender past i content =
    (before : List Past) × (d : Past) × (after : List Past) × (past ≡ before ++ (d ∷ after))
    × (d.process ≡ i)
    × (d.content ≡ content)
    × AllServed d.rounds 0 content sender.targets (calls_of sender d)

pub IsServed-append :
    (sender : Sender) (past more : List Past) (i : ℕ) (content : Text)
    → IsServed sender past i content
    → IsServed sender (past ++ more) i content
IsServed-append sender past more i content (before, d, after, e, p, c, s) =
    (before, d, after ++ more, rw e (append_assoc before (d ∷ after) more), p, c, s)

-- what is known of a call at a stage, by the deliveries that are over and the calls of one that is not
abbrev pub Stands : Sender → List Past → List Call → ℕ → Text → Stage → Type 0
Stands sender past current i content entering = Unit
Stands sender past current i content selecting = Unit
Stands sender past current i content waiting = Unit
Stands sender past current i content acquired = current ≡ []
Stands sender past current i content (posting t ts errs) =
    Ahead sender content (t ∷ ts) errs current
Stands sender past current i content (returned none) = IsServed sender past i content
Stands sender past current i content (returned (some e)) = Unit

-- The delivery `d` is that of call `i`, whose last move this is.
abbrev pub IsLast : Sender → ℕ → Process → Move → Past → Type 0
IsLast sender i p m d =
    (d.process ≡ i)
    × (d.content ≡ p.content)
    × (is_delivering p ≡ 1)
    × (m.stage ≡ returned (delivery_result (deliver d.rounds d.content sender.targets)))

-- What one move of call `i` does to the deliveries.
abbrev pub Moved : Sender → List Past → List Call → ℕ → Process → Move → Type 0
Moved sender past current i p m =
    (more : List Past) × (current' : List Call) × (all_calls sender past ++ (current ++ m.calls)
      ≡ all_calls sender (past ++ more) ++ current')
    × (m.slots.gate ≡ 0 → current' ≡ [])
    × Stands sender (past ++ more) current' i p.content m.stage
    × ((current' ≡ current) ⊎ (is_delivering p ≡ 1))
    × ((more ≡ []) ⊎ ((d : Past) × (more ≡ d ∷ []) × IsLast sender i p m d))

-- a move in which nothing is delivered
pub quiet_move :
    (sender : Sender) (past : List Past) (current : List Call) (i : ℕ) (p : Process) (s : Slots)
    (stage : Stage)
    → (s.gate ≡ 0 → current ≡ [])
    → Stands sender past current i p.content stage
    → Moved sender past current i p (stay s stage)
quiet_move sender past current i p s stage g h = (
  [],
  current,
  rw (append-nil past, append-nil current) refl,
  g,
  subst (λ ds. Stands sender ds current i p.content stage) (sym (append-nil past)) h,
  inl refl,
  inl refl,
)

-- the result of a delivery that has just ended
finished-Stands :
    (sender : Sender) (past : List Past) (d : Past) (o : Option Error)
    → delivery_result (deliver d.rounds d.content sender.targets) ≡ o
    → Stands sender (past ++ (d ∷ [])) [] d.process d.content (returned o)
finished-Stands sender past d none h =
    (past, d, [], refl, refl, refl, deliver_served d.rounds d.content sender.targets h)
finished-Stands sender past d (some e) h = tt

finished-log :
    (sender : Sender) (past : List Past) (d : Past) (calls : List Call)
    → calls_of sender d ≡ calls
    → all_calls sender past ++ calls ≡ all_calls sender (past ++ (d ∷ [])) ++ []
finished-log sender past d calls e =
    rw
      (
        append-nil (all_calls sender (past ++ (d ∷ []))),
        all_calls-append sender past (d ∷ []),
        append-nil (calls_of sender d),
        e,
      )
      refl

abbrev pub finishing : Slots → List Error → List Call → Move
finishing s errs calls = record { slots = s; stage = returned (join_errors errs); calls = calls }

-- the last move of a loop
pub finishing_move :
    (sender : Sender) (past : List Past) (current : List Call) (i : ℕ) (p : Process) (s : Slots)
    (errs : List Error) (calls : List Call)
    → is_delivering p ≡ 1
    → Ahead sender p.content [] errs (current ++ calls)
    → Moved sender past current i p (finishing s errs calls)
unfolding delivery_result
finishing_move sender past current i p s errs calls k h =
    let (rounds, e) = done-Ahead sender p.content errs (current ++ calls) h in
    let d : Past = record { process = i; content = p.content; rounds = rounds } in
    (
      d ∷ [],
      [],
      finished-log sender past d (current ++ calls) (ap (λ (x : Delivery). x.calls) e),
      λ g. refl,
      finished-Stands sender past d (join_errors errs)
          (ap (λ (x : Delivery). join_errors x.errs) e),
      inr k,
      inr (d, refl, (refl, refl, k, ap (λ (x : Delivery). returned (join_errors x.errs)) (sym e))),
    )
