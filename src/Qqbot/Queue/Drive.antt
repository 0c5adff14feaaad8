-- ===== src/Qqbot/Queue/Drive.antt =====
-- sender.go: every call of Send ends.
use gatus_qqbot.Base.{
  ℕ, ◌+◌, ◌≤◌, ◌<◌, List, [], ◌∷◌, ◌++◌, Option, none, some, ◌≡◌, ◌⊎◌, refl, arith, inl, inr, ltb,
  get_elem?, total, total-set, length, Bool-cases,
}
use gatus_qqbot.Config.{TargetConfig}
use gatus_qqbot.Errors.{Error}
use gatus_qqbot.Qqbot.Queue.{
  Sender, Slots, Stage, entering, selecting, waiting, acquired, posting, returned, Process, Event,
  proceed, ended, round, Move, admit, take_gate, loop, loop_pass, act, System, commit, step_process,
  step,
}
use gatus_qqbot.Qqbot.Sender.{Call, pass}
use gatus_qqbot.Strings.{Text}

-- how many steps a call has left at most
abbrev pub rank : Sender → Stage → ℕ
rank sender entering = length sender.targets + 4
rank sender selecting = length sender.targets + 3
rank sender waiting = length sender.targets + 2
rank sender acquired = length sender.targets + 1
rank sender (posting t ts errs) = length ts + 1
rank sender (returned o) = 0

loop-rank :
    (sender : Sender) (s : Slots) (calls : List Call) (ts : List TargetConfig) (errs : List Error)
    → rank sender (loop s calls ts errs).stage ≤ length ts
unfolding loop
loop-rank sender s calls [] errs = omega arith
loop-rank sender s calls (t ∷ ts) errs = omega arith

abbrev Lowers : Sender → Stage → Option Move → Type 0
Lowers sender stage none = Unit
Lowers sender stage (some m) = rank sender m.stage < rank sender stage

act-Lowers :
    (sender : Sender) (s : Slots) (content : Text) (stage : Stage) (e : Event)
    → Lowers sender stage (act sender s content stage e)
unfolding act admit take_gate loop_pass
act-Lowers sender s content entering proceed = omega arith
act-Lowers sender s content entering (ended e) = omega arith
act-Lowers sender s content entering (round r) = tt
act-Lowers sender s content selecting proceed = ground arith
act-Lowers sender s content selecting (ended e) = omega arith
act-Lowers sender s content selecting (round r) = tt
act-Lowers sender s content waiting proceed = elim (Bool-cases (ltb s.gate 1)) [
  | inl h ↦ rw h (omega arith)
  | inr h ↦ rw h tt
]
act-Lowers sender s content waiting (ended e) = omega arith
act-Lowers sender s content waiting (round r) = tt
act-Lowers sender s content acquired proceed =
    omega (arith, loop-rank sender s [] sender.targets [])
act-Lowers sender s content acquired (ended e) = omega arith
act-Lowers sender s content acquired (round r) = tt
act-Lowers sender s content (posting t ts errs) proceed = tt
act-Lowers sender s content (posting t ts errs) (ended e) = tt
act-Lowers sender s content (posting t ts errs) (round r) =
    elim (Bool-cases (pass content t r).go_on) [
      | inl h ↦ rw h (
          omega (
            arith,
            loop-rank sender s (pass content t r).calls ts (errs ++ (pass content t r).errs),
          ))
      | inr h ↦ rw h (
          omega (
            arith,
            loop-rank sender s (pass content t r).calls [] (errs ++ (pass content t r).errs),
          ))
    ]
act-Lowers sender s content (returned o) proceed = tt
act-Lowers sender s content (returned o) (ended e) = tt
act-Lowers sender s content (returned o) (round r) = tt

abbrev pub steps_left : Sender → System → ℕ
steps_left sender y = total (λ p. rank sender p.stage) y.processes

commit_shrinks :
    (sender : Sender) (y : System) (i : ℕ) (p : Process) (m : Option Move)
    → get_elem? y.processes i ≡ some p
    → Lowers sender p.stage m
    → (commit y i p m ≡ y) ⊎ (steps_left sender (commit y i p m) < steps_left sender y)
unfolding commit
commit_shrinks sender y i p none at h = inl refl
commit_shrinks sender y i p (some m) at h = inr (
    omega
      (arith, total-set (λ q. rank sender q.stage) y.processes i (record p { stage = m.stage }) at))

step_process_shrinks :
    (sender : Sender) (y : System) (i : ℕ) (e : Event) (o : Option Process)
    → get_elem? y.processes i ≡ o
    → (step_process sender y i e o ≡ y)
      ⊎ (steps_left sender (step_process sender y i e o) < steps_left sender y)
unfolding step_process
step_process_shrinks sender y i e none at = inl refl
step_process_shrinks sender y i e (some p) at =
    commit_shrinks sender y i p _ at (act-Lowers sender y.slots p.content p.stage e)

-- An event changes nothing or leaves fewer steps, in sum over the calls: no run has more effective
-- steps than `length targets + 4` for each call of Send.
pub step_shrinks :
    (sender : Sender) (y : System) (e : ℕ × Event)
    → (step sender y e ≡ y) ⊎ (steps_left sender (step sender y e) < steps_left sender y)
unfolding step
step_shrinks sender y (i, e) = step_process_shrinks sender y i e _ refl
