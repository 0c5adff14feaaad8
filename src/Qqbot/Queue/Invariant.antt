-- ===== src/Qqbot/Queue/Invariant.antt =====
-- sender.go: the channels count the calls that are in the queue and in delivery.
use gatus_qqbot.Base.{
  ℕ, ◌+◌, ◌≤◌, true, List, [], ◌∷◌, Option, none, some, ◌≡◌, refl, arith, inl, inr, ltb, get_elem?,
  total, total-set, total-ge, total-two, Bool-cases,
}
use gatus_qqbot.Config.{TargetConfig}
use gatus_qqbot.Errors.{Error}
use gatus_qqbot.Qqbot.Queue.{
  Sender, admission_cap, Slots, Stage, entering, selecting, waiting, acquired, posting, returned,
  Process, Event, proceed, ended, round, Move, stay, admit, take_gate, loop, loop_pass, act, System,
  commit, step_process, step, run, init, is_admitted, is_delivering,
}
use gatus_qqbot.Qqbot.Sender.{Call}
use gatus_qqbot.Strings.{Text}

pub record Inv (sender : Sender) (y : System) : Type 0 where
  pub admitted : y.slots.admission ≡ total is_admitted y.processes
  pub delivering : y.slots.gate ≡ total is_delivering y.processes
  pub bounded : y.slots.admission ≤ admission_cap sender
  pub exclusive : y.slots.gate ≤ 1

-- What a step of one call does to the two counters.
pub record Accounts (sender : Sender) (s : Slots) (p : Process) (m : Move) : Type 0 where
  pub admitted :
      is_admitted p ≤ s.admission
      → m.slots.admission + is_admitted p ≡ s.admission + is_admitted (record p { stage = m.stage })
  pub delivering :
      is_delivering p ≤ s.gate
      → m.slots.gate + is_delivering p ≡ s.gate + is_delivering (record p { stage = m.stage })
  pub bounded : s.admission ≤ admission_cap sender → m.slots.admission ≤ admission_cap sender
  pub exclusive : s.gate ≤ 1 → m.slots.gate ≤ 1

abbrev AccountsFor : Sender → Slots → Process → Option Move → Type 0
AccountsFor sender s p none = Unit
AccountsFor sender s p (some m) = Accounts sender s p m

loop-Accounts :
    (sender : Sender) (s : Slots) (p : Process) (calls : List Call) (ts : List TargetConfig)
    (errs : List Error)
    → is_admitted p ≡ 1
    → is_delivering p ≡ 1
    → Accounts sender s p (loop s calls ts errs)
unfolding loop
loop-Accounts sender s p calls [] errs h k = ground arith
loop-Accounts sender s p calls (t ∷ ts) errs h k = ground arith

admitted_Accounts :
    (sender : Sender) (s : Slots) (content : Text)
    → ltb s.admission (admission_cap sender) ≡ true
    → Accounts sender s
        (record { content = content; stage = selecting })
        (stay (record s { admission = s.admission + 1 }) waiting)
admitted_Accounts sender s content h = record {
  admitted = λ _. omega arith;
  delivering = λ _. omega arith;
  bounded = λ _. ground arith;
  exclusive = λ k. k;
}

act-Accounts :
    (sender : Sender) (s : Slots) (content : Text) (stage : Stage) (e : Event)
    → AccountsFor sender s
        (record { content = content; stage = stage })
        (act sender s content stage e)
unfolding act admit take_gate loop_pass
act-Accounts sender s content entering proceed = ground arith
act-Accounts sender s content entering (ended e) = ground arith
act-Accounts sender s content entering (round r) = tt
act-Accounts sender s content selecting proceed =
    elim (Bool-cases (ltb s.admission (admission_cap sender))) [
      | inl h ↦ rw h (admitted_Accounts sender s content h)
      | inr h ↦ rw h (ground arith)
    ]
act-Accounts sender s content selecting (ended e) = ground arith
act-Accounts sender s content selecting (round r) = tt
act-Accounts sender s content waiting proceed = elim (Bool-cases (ltb s.gate 1)) [
  | inl h ↦ rw h (ground arith)
  | inr h ↦ rw h tt
]
act-Accounts sender s content waiting (ended e) = ground arith
act-Accounts sender s content waiting (round r) = tt
act-Accounts sender s content acquired proceed =
    loop-Accounts sender s _ [] sender.targets [] refl refl
act-Accounts sender s content acquired (ended e) = ground arith
act-Accounts sender s content acquired (round r) = tt
act-Accounts sender s content (posting t ts errs) proceed = tt
act-Accounts sender s content (posting t ts errs) (ended e) = tt
act-Accounts sender s content (posting t ts errs) (round r) =
    loop-Accounts sender s _ _ _ _ refl refl
act-Accounts sender s content (returned o) proceed = tt
act-Accounts sender s content (returned o) (ended e) = tt
act-Accounts sender s content (returned o) (round r) = tt

commit-Inv :
    (sender : Sender) (y : System) (i : ℕ) (p : Process) (m : Option Move)
    → get_elem? y.processes i ≡ some p
    → AccountsFor sender y.slots p m
    → Inv sender y
    → Inv sender (commit y i p m)
unfolding commit
commit-Inv sender y i p none h a v = v
commit-Inv sender y i p (some m) h a v = omega (
  arith,
  total-ge is_admitted y.processes i h,
  total-ge is_delivering y.processes i h,
  total-set is_admitted y.processes i (record p { stage = m.stage }) h,
  total-set is_delivering y.processes i (record p { stage = m.stage }) h,
)

step_process-Inv :
    (sender : Sender) (y : System) (i : ℕ) (e : Event) (o : Option Process)
    → get_elem? y.processes i ≡ o
    → Inv sender y
    → Inv sender (step_process sender y i e o)
unfolding step_process
step_process-Inv sender y i e none h v = v
step_process-Inv sender y i e (some p) h v =
    commit-Inv sender y i p _ h (act-Accounts sender y.slots p.content p.stage e) v

pub step-Inv :
    (sender : Sender) (y : System) (e : ℕ × Event) → Inv sender y → Inv sender (step sender y e)
unfolding step
step-Inv sender y (i, e) v = step_process-Inv sender y i e _ refl v

pub run-Inv :
    (sender : Sender) (y : System) (es : List (ℕ × Event))
    → Inv sender y
    → Inv sender (run sender y es)
unfolding run
run-Inv sender y [] v = v
run-Inv sender y (e ∷ es) v = run-Inv sender (step sender y e) es (step-Inv sender y e v)

total_entering :
    (w : Process → ℕ) (contents : List Text)
    → ((c : Text) → w (record { content = c; stage = entering }) ≡ 0)
    → total w (init contents).processes ≡ 0
total_entering w [] h = refl
total_entering w (c ∷ cs) h = omega (arith, h c, total_entering w cs h)

pub init-Inv : (sender : Sender) (contents : List Text) → Inv sender (init contents)
init-Inv sender contents = omega (
  arith,
  total_entering is_admitted contents (λ c. refl),
  total_entering is_delivering contents (λ c. refl),
)

-- However calls of Send interleave, the two channels hold exactly the calls that are admitted and
-- that deliver; at most `max_pending_alerts` + 1 are admitted, and at most one delivers.
pub reachable-Inv :
    (sender : Sender) (contents : List Text) (es : List (ℕ × Event))
    → Inv sender (run sender (init contents) es)
reachable-Inv sender contents es = run-Inv sender _ es (init-Inv sender contents)

-- Two calls that hold the gate are one and the same.
pub one_delivery :
    (sender : Sender) (contents : List Text) (es : List (ℕ × Event)) (i j : ℕ) (p q : Process)
    → get_elem? (run sender (init contents) es).processes i ≡ some p
    → get_elem? (run sender (init contents) es).processes j ≡ some q
    → is_delivering p ≡ 1
    → is_delivering q ≡ 1
    → i ≡ j
one_delivery sender contents es i j p q h k hp kq =
    let v = reachable-Inv sender contents es in
    total-two is_delivering (run sender (init contents) es).processes i j h k hp kq (omega arith)
