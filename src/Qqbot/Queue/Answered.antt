-- ===== src/Qqbot/Queue/Answered.antt =====
-- sender.go: what the API has answered to a call of `Send` that returns without an error, while other
-- calls are under way: one pass.
pub mod Runs
pub mod Targets
use gatus_qqbot.Base.{
  ℕ, zero, suc, ◌+◌, List, [], ◌∷◌, ◌++◌, Option, none, some, ◌≡◌, ◌≢◌, ◌⊎◌, refl, sym, subst, ap,
  ◌∙◌, inl, inr, All, All-append, length, length-append, get_elem?, get_elem?-set_same,
  get_elem?-set_other, some-inj, ltb, if_cases, ◌==◌, ==_iff, ==_refl, Bool-cases, if◌then◌else◌,
  true, false, arith,
}
use gatus_qqbot.Config.{TargetConfig}
use gatus_qqbot.Errors.{Error, join_two, join_errors, sentinel, queue_full}
use gatus_qqbot.Qqbot.Queue.{
  Sender, admission_cap, Slots, Stage, entering, selecting, waiting, acquired, posting, returned,
  Process, Event, proceed, ended, round, Move, admit, take_gate, loop, loop_pass, act, System,
  commit, step_process, step, run, init,
}
use gatus_qqbot.Qqbot.Sender.{
  Call, Method, Round, Pass, method_of, post_error, pass_failed, pass_posted, pass_from, pass,
}
use gatus_qqbot.Strings.{Text}

-- what a pass of a call meets at an event
abbrev pub met : Event → Stage → List Round
met (round r) (posting t ts errs) = r ∷ []
met e stage = []

abbrev pub met_by : ℕ → ℕ × Event → Option Process → List Round
met_by i e none = []
met_by i e (some p) = if e.0 == i then met e.1 p.stage else []

-- What the passes of call `i` meet in a run, in order: `ctx.Err()` and the answers of the API.
abbrev pub heard : Sender → System → ℕ → List (ℕ × Event) → List Round
heard sender y i [] = []
heard sender y i (e ∷ es) =
    met_by i e (get_elem? y.processes i) ++ heard sender (step sender y e) i es

-- The context has not ended before the call of the API, and the API reports no error.
abbrev pub IsQuiet : Round → Type 0
IsQuiet r = (r.before ≡ none) × (r.posted ≡ none)

abbrev pub Answered : ℕ → List Round → Type 0
Answered n rs = All IsQuiet rs × (length rs ≡ n)

-- The call cannot return without an error any more.
abbrev pub IsSpoilt : Stage → Type 0
IsSpoilt (posting t ts errs) = errs ≢ []
IsSpoilt (returned (some e)) = Unit
IsSpoilt _ = ⊥

-- the passes that a call has still to make, if none of them fails
abbrev pub todo : Sender → Stage → ℕ
todo sender (posting t ts errs) = suc (length ts)
todo sender (returned o) = 0
todo sender _ = length sender.targets

append-ne-nil : {A : Type 0} (xs ys : List A) → xs ≢ [] → xs ++ ys ≢ []
append-ne-nil [] ys h = absurd (h refl)
append-ne-nil (x ∷ xs) ys h = λ q. cc

append-ne-nil_right : {A : Type 0} (xs ys : List A) → ys ≢ [] → xs ++ ys ≢ []
append-ne-nil_right [] ys h = h
append-ne-nil_right (x ∷ xs) ys h = λ q. cc

two-IsSpoilt : (e : Error) (o : Option Error) → IsSpoilt (returned (join_two (some e) o))
unfolding join_two
two-IsSpoilt e none = tt
two-IsSpoilt e (some f) = tt

joined-IsSpoilt : (errs : List Error) → errs ≢ [] → IsSpoilt (returned (join_errors errs))
unfolding join_errors
joined-IsSpoilt [] h = absurd (h refl)
joined-IsSpoilt (e ∷ errs) h = two-IsSpoilt e (join_errors errs)

loop-IsSpoilt :
    (s : Slots) (calls : List Call) (ts : List TargetConfig) (errs : List Error)
    → errs ≢ []
    → IsSpoilt (loop s calls ts errs).stage
unfolding loop
loop-IsSpoilt s calls [] errs h = joined-IsSpoilt errs h
loop-IsSpoilt s calls (t ∷ ts) errs h = h

abbrev Passes : Round → Pass → Type 0
Passes r p = (IsQuiet r × (p.go_on ≡ true)) ⊎ (p.errs ≢ [])

-- A pass goes on without an error, or it adds one.
failed_adds :
    (t : TargetConfig) (r : Round) (calls : List Call) (e : Error) (o : Option Error)
    → (pass_failed t r calls e o).errs ≢ []
unfolding pass_failed
failed_adds t r calls e none = λ q. cc
failed_adds t r calls e (some c) = λ q. cc

posted-Passes :
    (t : TargetConfig) (r : Round) (calls : List Call) (m : Option Method) (o : Option Error)
    → r.before ≡ none
    → r.posted ≡ o
    → Passes r (pass_posted t r calls (post_error t r m))
unfolding pass_posted post_error
posted-Passes t r calls none o b q = inr (failed_adds t r calls _ r.after)
posted-Passes t r calls (some m) none b q =
    subst (λ x. Passes r (pass_posted t r calls x)) (sym q) (inl ((b, q), refl))
posted-Passes t r calls (some m) (some e) b q =
    subst (λ x. Passes r (pass_posted t r calls x)) (sym q) (inr (failed_adds t r calls e r.after))

from-Passes :
    (content : Text) (t : TargetConfig) (r : Round) (o : Option Error)
    → r.before ≡ o
    → Passes r (pass_from content t r o)
unfolding pass_from
from-Passes content t r none b = posted-Passes t r _ (method_of t) r.posted b refl
from-Passes content t r (some e) b = inr (λ q. cc)

pass-Passes : (content : Text) (t : TargetConfig) (r : Round) → Passes r (pass content t r)
unfolding pass
pass-Passes content t r = from-Passes content t r r.before refl

todo-loop :
    (sender : Sender) (s : Slots) (calls : List Call) (ts : List TargetConfig) (errs : List Error)
    → todo sender (loop s calls ts errs).stage ≡ length ts
unfolding loop
todo-loop sender s calls [] errs = refl
todo-loop sender s calls (t ∷ ts) errs = refl

-- what a move of a call at `stage` that meets `e` leads to
abbrev pub Progresses : Sender → Stage → Event → Option Move → Type 0
Progresses sender stage e none = met e stage ≡ []
Progresses sender stage e (some m) =
    IsSpoilt m.stage
    ⊎ (All IsQuiet (met e stage) × (length (met e stage) + todo sender m.stage ≡ todo sender stage))

round-Progresses :
    (sender : Sender) (s : Slots) (content : Text) (t : TargetConfig) (ts : List TargetConfig)
    (errs : List Error) (r : Round)
    → Progresses sender (posting t ts errs) (round r) (some (loop_pass s content t ts errs r))
unfolding loop_pass
round-Progresses sender s content t ts errs r = elim (pass-Passes content t r) [
  | inl (q, g) ↦
      let p = pass content t r in
      inr ((q, tt), rw g (omega (arith, todo-loop sender s p.calls ts (errs ++ p.errs))))
  | inr n ↦ inl (loop-IsSpoilt s _ _ _ (append-ne-nil_right errs (pass content t r).errs n))
]

pub act-Progresses :
    (sender : Sender) (s : Slots) (content : Text) (stage : Stage) (e : Event)
    → Progresses sender stage e (act sender s content stage e)
unfolding act admit take_gate
act-Progresses sender s content entering proceed = inr (tt, omega arith)
act-Progresses sender s content entering (ended e) = inl tt
act-Progresses sender s content entering (round r) = refl
act-Progresses sender s content selecting proceed =
    if_cases (λ (m : Move). Progresses sender selecting proceed (some m))
      (ltb s.admission (admission_cap sender)) (λ h. inr (tt, omega arith)) (λ h. inl tt)
act-Progresses sender s content selecting (ended e) = inl tt
act-Progresses sender s content selecting (round r) = refl
act-Progresses sender s content waiting proceed =
    if_cases (Progresses sender waiting proceed) (ltb s.gate 1) (λ h. inr (tt, omega arith))
      (λ h. refl)
act-Progresses sender s content waiting (ended e) = inl tt
act-Progresses sender s content waiting (round r) = refl
act-Progresses sender s content acquired proceed =
    inr (tt, omega (arith, todo-loop sender s [] sender.targets []))
act-Progresses sender s content acquired (ended e) = inl tt
act-Progresses sender s content acquired (round r) = refl
act-Progresses sender s content (posting t ts errs) proceed = refl
act-Progresses sender s content (posting t ts errs) (ended e) = refl
act-Progresses sender s content (posting t ts errs) (round r) =
    round-Progresses sender s content t ts errs r
act-Progresses sender s content (returned o) proceed = refl
act-Progresses sender s content (returned o) (ended e) = refl
act-Progresses sender s content (returned o) (round r) = refl

-- A spoilt call stays spoilt.
abbrev pub Spoils : Option Move → Type 0
Spoils none = Unit
Spoils (some m) = IsSpoilt m.stage

pub act-Spoils :
    (sender : Sender) (s : Slots) (content : Text) (stage : Stage) (e : Event)
    → IsSpoilt stage
    → Spoils (act sender s content stage e)
unfolding act loop_pass
act-Spoils sender s content (posting t ts errs) proceed h = tt
act-Spoils sender s content (posting t ts errs) (ended e) h = tt
act-Spoils sender s content (posting t ts errs) (round r) h =
    loop-IsSpoilt s _ _ _ (append-ne-nil errs _ h)
act-Spoils sender s content (returned o) proceed h = tt
act-Spoils sender s content (returned o) (ended e) h = tt
act-Spoils sender s content (returned o) (round r) h = tt
act-Spoils sender s content entering e h = absurd h
act-Spoils sender s content selecting e h = absurd h
act-Spoils sender s content waiting e h = absurd h
act-Spoils sender s content acquired e h = absurd h
