-- ===== src/Qqbot/Queue/Serial/Moves.antt =====
-- sender.go: every step of the machine keeps the deliveries apart.
use gatus_qqbot.Base.{
  ℕ, ◌+◌, ◌≤◌, List, [], ◌∷◌, ◌++◌, append-nil, Option, none, some, ◌≡◌, refl, sym, subst, ◌∙◌, ltb,
  if_cases, inl, inr, arith,
}
use gatus_qqbot.Config.{TargetConfig}
use gatus_qqbot.Errors.{Error, sentinel, queue_full}
use gatus_qqbot.Qqbot.Queue.{
  Sender, admission_cap, Slots, Stage, entering, selecting, waiting, acquired, posting, returned,
  Process, Event, proceed, ended, round, Move, leave_queue, release, admit, take_gate, loop,
  loop_pass, act, is_delivering,
}
use gatus_qqbot.Qqbot.Queue.Ahead.{Ahead, start-Ahead, pass-Ahead, remaining}
use gatus_qqbot.Qqbot.Queue.Serial.{
  Past, IsServed-append, Stands, Moved, quiet_move, finishing_move,
}
use gatus_qqbot.Qqbot.Sender.{Call, pass}
use gatus_qqbot.Strings.{Text}

abbrev pub at : Text → Stage → Process
at content stage = record { content = content; stage = stage }

module _ (sender : Sender) (past : List Past) (current : List Call) (i : ℕ) where
  abbrev pub MovedFor : Process → Option Move → Type 0
  MovedFor p none = Unit
  MovedFor p (some m) = Moved sender past current i p m

  loop-Moved :
      (p : Process) (s : Slots) (ts : List TargetConfig) (errs : List Error) (calls : List Call)
      → is_delivering p ≡ 1
      → 1 ≤ s.gate
      → Ahead sender p.content ts errs (current ++ calls)
      → Moved sender past current i p (loop s calls ts errs)
  unfolding loop
  loop-Moved p s [] errs calls k g h =
      finishing_move sender past current i p (release s) errs calls k h
  loop-Moved p s (t ∷ ts) errs calls k g h = (
    [],
    current ++ calls,
    rw (append-nil past) refl,
    λ z. absurd (omega (arith, g, z)),
    h,
    inr k,
    inl refl,
  )

  module _ (p : Process) (s : Slots) (idle : s.gate ≡ 0 → current ≡ []) where
    admit-Moved : Moved sender past current i p (admit sender s)
    unfolding admit
    admit-Moved =
        if_cases (Moved sender past current i p) (ltb s.admission (admission_cap sender))
          (λ h.
            quiet_move sender past current i p (record s { admission = s.admission + 1 }) waiting
              idle tt)
          (λ h.
            quiet_move sender past current i p s (returned (some (sentinel queue_full))) idle tt)

    take_gate-Moved : MovedFor p (take_gate s)
    unfolding take_gate
    take_gate-Moved =
        if_cases (MovedFor p) (ltb s.gate 1)
          (λ h.
            quiet_move sender past current i p (record s { gate = s.gate + 1 }) acquired
              (λ z. absurd (omega (arith, z))) (idle (ground arith)))
          (λ h. tt)

  pub act-Moved :
      (s : Slots) (content : Text) (stage : Stage) (e : Event)
      → (s.gate ≡ 0 → current ≡ [])
      → is_delivering (record { content = content; stage = stage }) ≤ s.gate
      → Stands sender past current i content stage
      → MovedFor (record { content = content; stage = stage }) (act sender s content stage e)
  unfolding act loop_pass
  act-Moved s content entering proceed idle g h =
      quiet_move sender past current i (at content entering) s selecting idle tt
  act-Moved s content entering (ended e) idle g h =
      quiet_move sender past current i (at content entering) s (returned (some e)) idle tt
  act-Moved s content entering (round r) idle g h = tt
  act-Moved s content selecting proceed idle g h = admit-Moved (at content selecting) s idle
  act-Moved s content selecting (ended e) idle g h =
      quiet_move sender past current i (at content selecting) s (returned (some e)) idle tt
  act-Moved s content selecting (round r) idle g h = tt
  act-Moved s content waiting proceed idle g h = take_gate-Moved (at content waiting) s idle
  act-Moved s content waiting (ended e) idle g h =
      quiet_move sender past current i (at content waiting) (leave_queue s) (returned (some e)) idle
        tt
  act-Moved s content waiting (round r) idle g h = tt
  act-Moved s content acquired proceed idle g h =
      loop-Moved (at content acquired) s sender.targets [] [] refl g (
        subst (Ahead sender content sender.targets []) (sym (append-nil current ∙ h))
          (start-Ahead sender content))
  act-Moved s content acquired (ended e) idle g h =
      quiet_move sender past current i (at content acquired) (release s) (returned (some e))
        (λ z. h) tt
  act-Moved s content acquired (round r) idle g h = tt
  act-Moved s content (posting t ts errs) proceed idle g h = tt
  act-Moved s content (posting t ts errs) (ended e) idle g h = tt
  act-Moved s content (posting t ts errs) (round r) idle g h =
      let p = pass content t r in
      loop-Moved (at content (posting t ts errs)) s (remaining p ts) (errs ++ p.errs) p.calls refl g
        (pass-Ahead sender content t ts errs current r h)
  act-Moved s content (returned o) proceed idle g h = tt
  act-Moved s content (returned o) (ended e) idle g h = tt
  act-Moved s content (returned o) (round r) idle g h = tt

pub Stands-append :
    (sender : Sender) (past more : List Past) (current : List Call) (i : ℕ) (c : Text)
    (stage : Stage)
    → Stands sender past current i c stage
    → Stands sender (past ++ more) current i c stage
Stands-append sender past more current i c entering h = tt
Stands-append sender past more current i c selecting h = tt
Stands-append sender past more current i c waiting h = tt
Stands-append sender past more current i c acquired h = h
Stands-append sender past more current i c (posting t ts errs) h = h
Stands-append sender past more current i c (returned none) h =
    IsServed-append sender past more i c h
Stands-append sender past more current i c (returned (some e)) h = tt

-- A call that delivers nothing does not depend on the calls of the delivery.
pub Stands-quiet :
    (sender : Sender) (past : List Past) (current current' : List Call) (i : ℕ) (c : Text)
    → (stage : Stage) → (is_delivering (at c stage) ≡ 1 → ⊥)
    → Stands sender past current i c stage
    → Stands sender past current' i c stage
Stands-quiet sender past current current' i c entering q h = tt
Stands-quiet sender past current current' i c selecting q h = tt
Stands-quiet sender past current current' i c waiting q h = tt
Stands-quiet sender past current current' i c acquired q h = absurd (q refl)
Stands-quiet sender past current current' i c (posting t ts errs) q h = absurd (q refl)
Stands-quiet sender past current current' i c (returned none) q h = h
Stands-quiet sender past current current' i c (returned (some e)) q h = tt
