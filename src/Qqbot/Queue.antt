-- ===== src/Qqbot/Queue.antt =====
-- internal/qqbot/sender.go: concurrent calls of `Send`, as a machine of interleaved steps.
-- The two channels are counters: `admission` has room for the waiting alerts and the active one,
-- `gate` for one delivery. Each call of `Send` is a process; an event says which process moves and
-- what it sees: the context's error, a channel operation that goes through, or a pass of the loop.
pub mod Invariant
pub mod Fairness
pub mod Drive
pub mod Ahead
pub mod Serial
pub mod Answered
mod Tests
use gatus_qqbot.Base.{
  ℕ, ◌+◌, ◌-◌, Bool, true, false, List, [], ◌∷◌, ◌++◌, map, Option, none, some, ltb, if◌then◌else◌,
  get_elem?, set,
}
use gatus_qqbot.Config.{TargetConfig}
use gatus_qqbot.Errors.{Error, sentinel, queue_full, join_errors}
use gatus_qqbot.Qqbot.Sender.{Call, Round, pass}
use gatus_qqbot.Strings.{Text}

-- what NewSender is given; a negative number of pending alerts counts as 0
pub record Sender : Type 0 where
  pub targets : List TargetConfig
  pub max_pending_alerts : ℕ

abbrev pub admission_cap : Sender → ℕ
admission_cap s = s.max_pending_alerts + 1

pub record Slots : Type 0 where
  pub admission : ℕ
  pub gate : ℕ

-- Where a call of `Send` stands: before the first look at its context, before the first `select`,
-- before the second, behind it with the gate held, in the loop with the targets left and the errors
-- so far, or returned.
pub data Stage : Type 0 where
  entering selecting waiting acquired : Stage
  posting : TargetConfig → List TargetConfig → List Error → Stage
  returned : Option Error → Stage

pub record Process : Type 0 where
  pub content : Text
  pub stage : Stage

pub data Event : Type 0 where
  proceed : Event
  ended : Error → Event
  round : Round → Event

pub record Move : Type 0 where
  pub slots : Slots
  pub stage : Stage
  pub calls : List Call

abbrev pub stay : Slots → Stage → Move
stay slots stage = record { slots = slots; stage = stage; calls = [] }

abbrev pub leave_queue : Slots → Slots
leave_queue s = record s { admission = s.admission - 1 }

-- The deferred functions, the last one first: the gate is freed, and then the place. The two receives
-- are one step here, so that a call which is turned away between them is one that comes before them.
abbrev pub release : Slots → Slots
release s = record { admission = s.admission - 1; gate = s.gate - 1 }

unfoldable pub admit : Sender → Slots → Move
admit sender s =
    if ltb s.admission (admission_cap sender)
    then stay (record s { admission = s.admission + 1 }) waiting
    else stay s (returned (some (sentinel queue_full)))

unfoldable pub take_gate : Slots → Option Move
take_gate s = if ltb s.gate 1 then some (stay (record s { gate = s.gate + 1 }) acquired) else none

-- the top of the loop, with the errors so far
unfoldable pub loop : Slots → List Call → List TargetConfig → List Error → Move
loop s calls [] errs = record {
  slots = release s;
  stage = returned (join_errors errs);
  calls = calls;
}
loop s calls (t ∷ ts) errs = record { slots = s; stage = posting t ts errs; calls = calls }

unfoldable pub loop_pass :
    Slots → Text → TargetConfig → List TargetConfig → List Error → Round → Move
loop_pass s content t ts errs r =
    let p = pass content t r in loop s p.calls (if p.go_on then ts else []) (errs ++ p.errs)

-- One step of a call; `none` where the event cannot happen, such as taking a gate that is held.
unfoldable pub act : Sender → Slots → Text → Stage → Event → Option Move
act sender s content entering proceed = some (stay s selecting)
act sender s content entering (ended e) = some (stay s (returned (some e)))
act sender s content selecting proceed = some (admit sender s)
act sender s content selecting (ended e) = some (stay s (returned (some e)))
act sender s content waiting proceed = take_gate s
act sender s content waiting (ended e) = some (stay (leave_queue s) (returned (some e)))
act sender s content acquired proceed = some (loop s [] sender.targets [])
act sender s content acquired (ended e) = some (stay (release s) (returned (some e)))
act sender s content (posting t ts errs) (round r) = some (loop_pass s content t ts errs r)
act _ _ _ _ _ = none

pub record System : Type 0 where
  pub slots : Slots
  pub processes : List Process
  pub log : List Call

unfoldable pub commit : System → ℕ → Process → Option Move → System
commit y i p none = y
commit y i p (some m) = record {
  slots = m.slots;
  processes = set y.processes i (record p { stage = m.stage });
  log = y.log ++ m.calls;
}

unfoldable pub step_process : Sender → System → ℕ → Event → Option Process → System
step_process sender y i e none = y
step_process sender y i e (some p) = commit y i p (act sender y.slots p.content p.stage e)

-- An event that cannot happen changes nothing.
unfoldable pub step : Sender → System → ℕ × Event → System
step sender y (i, e) = step_process sender y i e (get_elem? y.processes i)

unfoldable pub run : Sender → System → List (ℕ × Event) → System
run sender y [] = y
run sender y (e ∷ es) = run sender (step sender y e) es

-- one call of `Send` for each content, with both channels empty
abbrev pub init : List Text → System
init contents = record {
  slots = record { admission = 0; gate = 0 };
  processes = map (λ c. record { content = c; stage = entering }) contents;
  log = [];
}

-- a call that occupies a place of `admission`
abbrev pub is_admitted : Process → ℕ
is_admitted p = elim p.stage [ waiting ↦ 1 | acquired ↦ 1 | posting t ts errs ↦ 1 | _ ↦ 0 ]

-- a call that holds the gate
abbrev pub is_delivering : Process → ℕ
is_delivering p = elim p.stage [ acquired ↦ 1 | posting t ts errs ↦ 1 | _ ↦ 0 ]
