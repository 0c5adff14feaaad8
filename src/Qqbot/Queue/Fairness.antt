-- ===== src/Qqbot/Queue/Fairness.antt =====
-- sender.go: when an alert is turned away, that nothing stays occupied, and that calls go on.
use gatus_qqbot.Base.{
  ℕ, suc, ◌+◌, ◌≤◌, ◌<◌, List, [], ◌∷◌, Option, none, some, ◌≡◌, ◌↔◌, refl, sym, ◌∙◌, arith, inl,
  inr, ltb, get_elem?, total, All, Bool-cases,
}
use gatus_qqbot.Errors.{Error, sentinel, queue_full}
use gatus_qqbot.Qqbot.Queue.{
  Sender, admission_cap, Slots, Stage, entering, selecting, waiting, acquired, posting, returned,
  Process, Event, proceed, ended, round, Move, stay, admit, take_gate, act, System, run, init,
  is_admitted, is_delivering,
}
use gatus_qqbot.Qqbot.Queue.Invariant.{Inv, reachable-Inv}
use gatus_qqbot.Qqbot.Sender.{Round}
use gatus_qqbot.Strings.{Text}

abbrev turned_away : Stage
turned_away = returned (some (sentinel queue_full))

admit-turned_away :
    (sender : Sender) (s : Slots)
    → s.admission ≤ admission_cap sender
    → (some (admit sender s) ≡ some (stay s turned_away)) ↔ (s.admission ≡ admission_cap sender)
unfolding admit
admit-turned_away sender s h = (λ e. ground arith, λ e. ground arith)

-- In every reachable state a call whose context has not ended is turned away at the first `select`,
-- with ErrQueueFull, exactly when `max_pending_alerts` + 1 calls are already admitted.
pub turned_away_iff :
    (sender : Sender) (contents : List Text) (es : List (ℕ × Event)) (content : Text)
    → let y = run sender (init contents) es in
      (act sender y.slots content selecting proceed ≡ some (stay y.slots turned_away))
      ↔ (total is_admitted y.processes ≡ sender.max_pending_alerts + 1)
unfolding act
turned_away_iff sender contents es content =
    let v = reachable-Inv sender contents es in
    let full = admit-turned_away sender _ v.bounded in
    (λ e. sym v.admitted ∙ full.0 e, λ e. full.1 (v.admitted ∙ e))

abbrev pub IsReturned : Process → Type 0
IsReturned p = (o : Option Error) × (p.stage ≡ returned o)

total_returned :
    (w : Process → ℕ) (ps : List Process)
    → ((p : Process) → IsReturned p → w p ≡ 0)
    → All IsReturned ps
    → total w ps ≡ 0
total_returned w [] f h = refl
total_returned w (p ∷ ps) f h = omega (arith, f p h.0, total_returned w ps f h.1)

-- Once every call has returned, both channels are empty again, whatever happened before.
pub nothing_leaks :
    (sender : Sender) (contents : List Text) (es : List (ℕ × Event))
    → All IsReturned (run sender (init contents) es).processes
    → (run sender (init contents) es).slots ≡ record { admission = 0; gate = 0 }
nothing_leaks sender contents es h =
    let v = reachable-Inv sender contents es in
    let a = total_returned is_admitted _ (λ p (o, e). rw e refl) h in
    let b = total_returned is_delivering _ (λ p (o, e). rw e refl) h in ground arith

-- An event other than the end of the context.
abbrev pub IsProgress : Event → Type 0
IsProgress proceed = Unit
IsProgress (round r) = Unit
IsProgress (ended e) = ⊥

-- The call at position `i` can move although its context has not ended.
abbrev pub CanMove : Sender → System → ℕ → Type 0
CanMove sender y i =
    (p : Process) × (e : Event) × (m : Move) × (get_elem? y.processes i ≡ some p)
    × IsProgress e
    × (act sender y.slots p.content p.stage e ≡ some m)

some_delivering :
    (ps : List Process)
    → 1 ≤ total is_delivering ps
    → (i : ℕ) × (p : Process) × (get_elem? ps i ≡ some p) × (1 ≤ is_delivering p)
some_delivering [] h = absurd (omega arith)
some_delivering (p ∷ ps) h = elim (Bool-cases (ltb 0 (is_delivering p))) [
  | inl e ↦ (0, p, refl, ground arith)
  | inr e ↦ later (some_delivering ps (ground arith))
]
  where
    later :
        (i : ℕ) × (q : Process) × (get_elem? ps i ≡ some q) × (1 ≤ is_delivering q)
        → (i : ℕ) × (q : Process) × (get_elem? (p ∷ ps) i ≡ some q) × (1 ≤ is_delivering q)
    later (i, q, at, d) = (suc i, q, at, d)

abbrev smooth : Round
smooth = record { before = none; posted = none; after = none }

-- a call in delivery never waits for another
delivering_moves :
    (sender : Sender) (s : Slots) (content : Text) (stage : Stage)
    → 1 ≤ is_delivering (record { content = content; stage = stage })
    → (e : Event) × (m : Move) × IsProgress e × (act sender s content stage e ≡ some m)
unfolding act
delivering_moves sender s content entering h = absurd (omega arith)
delivering_moves sender s content selecting h = absurd (omega arith)
delivering_moves sender s content waiting h = absurd (omega arith)
delivering_moves sender s content acquired h = (proceed, _, tt, refl)
delivering_moves sender s content (posting t ts errs) h = (round smooth, _, tt, refl)
delivering_moves sender s content (returned o) h = absurd (omega arith)

holder_moves :
    (sender : Sender) (y : System)
    → 1 ≤ total is_delivering y.processes
    → (j : ℕ) × CanMove sender y j
holder_moves sender y h =
    let (j, p, at, d) = some_delivering y.processes h in
    let (e, m, own, move) = delivering_moves sender y.slots p.content p.stage d in
    (j, (p, e, m, at, own, move))

gate_free : (s : Slots) → s.gate < 1 → (m : Move) × (take_gate s ≡ some m)
unfolding take_gate
gate_free s h = (stay (record s { gate = s.gate + 1 }) acquired, ground arith)

stage_moves :
    (sender : Sender) (y : System) (i : ℕ) (content : Text) (stage : Stage)
    → get_elem? y.processes i ≡ some (record { content = content; stage = stage })
    → Inv sender y
    → ¬ IsReturned (record { content = content; stage = stage })
    → (j : ℕ) × CanMove sender y j
unfolding act
stage_moves sender y i content entering at v h = (i, (_, proceed, _, at, tt, refl))
stage_moves sender y i content selecting at v h = (i, (_, proceed, _, at, tt, refl))
stage_moves sender y i content waiting at v h = elim (Bool-cases (ltb y.slots.gate 1)) [
  | inl free ↦ let (m, e) = gate_free y.slots (ground arith) in (i, (_, proceed, m, at, tt, e))
  | inr held ↦ holder_moves sender y (ground arith)
]
stage_moves sender y i content acquired at v h = (i, (_, proceed, _, at, tt, refl))
stage_moves sender y i content (posting t ts errs) at v h = (i, (_, round smooth, _, at, tt, refl))
stage_moves sender y i content (returned o) at v h = absurd (h (o, refl))

-- While some call has not returned, some call can move, and not only by the end of its context:
-- the two channels never deadlock.
pub no_deadlock :
    (sender : Sender) (contents : List Text) (es : List (ℕ × Event)) (i : ℕ) (p : Process)
    → get_elem? (run sender (init contents) es).processes i ≡ some p
    → ¬ IsReturned p
    → (j : ℕ) × CanMove sender (run sender (init contents) es) j
no_deadlock sender contents es i p at h =
    stage_moves sender _ i p.content p.stage at (reachable-Inv sender contents es) h
