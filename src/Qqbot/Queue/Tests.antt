-- ===== src/Qqbot/Queue/Tests.antt =====
-- Two concurrent calls of Send with one waiting place, and three with none.
use gatus_qqbot.Base.{
  ℕ, ◌+◌, ◌<◌, List, [], ◌∷◌, ◌++◌, none, some, ◌≡◌, ◌↔◌, ◌⊎◌, refl, ap, get_elem?, total,
}
use gatus_qqbot.Errors.{sentinel, queue_full, join_errors}
use gatus_qqbot.Qqbot.Queue.{
  Sender, selecting, posting, returned, Event, proceed, round, stay, act, admit, take_gate, loop,
  loop_pass, commit, step_process, step, run, init, is_admitted,
}
use gatus_qqbot.Qqbot.Queue.Answered.{Answered, heard}
use gatus_qqbot.Qqbot.Queue.Answered.Runs.{heard-quiet}
use gatus_qqbot.Qqbot.Queue.Drive.{steps_left, step_shrinks}
use gatus_qqbot.Qqbot.Queue.Fairness.{
  IsReturned, CanMove, turned_away_iff, nothing_leaks, no_deadlock,
}
use gatus_qqbot.Qqbot.Queue.Invariant.{Inv, reachable-Inv}
use gatus_qqbot.Qqbot.Queue.Serial.Reachable.{Serial, reachable-Serial}
use gatus_qqbot.Qqbot.Sender.{method_of, call_of, post_error, pass, pass_from, pass_posted}
use gatus_qqbot.Qqbot.Sender.Tests.{ops, quiet}
use gatus_qqbot.Strings.{Text, codes, text_eq}

abbrev sender : Sender
sender = record { targets = ops ∷ []; max_pending_alerts = 0 }

abbrev contents : List Text
contents = codes "a" ∷ codes "b" ∷ []

-- the first call is in the loop, the second is at the first `select`
abbrev busy : List (ℕ × Event)
busy = (0, proceed) ∷ (0, proceed) ∷ (0, proceed) ∷ (0, proceed) ∷ (1, proceed) ∷ []

abbrev finished : List (ℕ × Event)
finished = busy ++ (1, proceed) ∷ (0, round (quiet 0)) ∷ []

finished_processes :
    (run sender (init contents) finished).processes
    ≡ record { content = codes "a"; stage = returned none }
      ∷ record { content = codes "b"; stage = returned (some (sentinel queue_full)) }
      ∷ []
unfolding run step step_process commit act admit take_gate loop loop_pass pass pass_from pass_posted
    method_of call_of post_error text_eq join_errors
finished_processes = refl

busy_first :
    get_elem? (run sender (init contents) busy).processes 0
    ≡ some (record { content = codes "a"; stage = posting ops [] [] })
unfolding run step step_process commit act admit take_gate loop
busy_first = refl

reachable-Inv_example : Inv sender (run sender (init contents) busy)
reachable-Inv_example = reachable-Inv sender contents busy

turned_away_iff_example :
    (act sender (run sender (init contents) busy).slots (codes "b") selecting proceed
      ≡ some (stay (run sender (init contents) busy).slots (returned (some (sentinel queue_full)))))
    ↔ (total is_admitted (run sender (init contents) busy).processes ≡ 0 + 1)
turned_away_iff_example = turned_away_iff sender contents busy (codes "b")

nothing_leaks_example :
    (run sender (init contents) finished).slots ≡ record { admission = 0; gate = 0 }
unfolding run step step_process commit act admit take_gate loop loop_pass pass pass_from pass_posted
    method_of call_of post_error text_eq join_errors
nothing_leaks_example =
    nothing_leaks sender contents finished ((none, refl), ((some (sentinel queue_full), refl), tt))

not-IsReturned : ¬ IsReturned (record { content = codes "a"; stage = posting ops [] [] })
not-IsReturned (o, e) = cc

no_deadlock_example : (j : ℕ) × CanMove sender (run sender (init contents) busy) j
no_deadlock_example = no_deadlock sender contents busy 0 _ busy_first not-IsReturned

step_shrinks_example :
    (step sender (init contents) (0, proceed) ≡ init contents)
    ⊎ (steps_left sender (step sender (init contents) (0, proceed))
        < steps_left sender (init contents))
step_shrinks_example = step_shrinks sender (init contents) (0, proceed)

reachable-Serial_example : Serial sender (run sender (init contents) finished)
reachable-Serial_example = reachable-Serial sender contents finished

first_returned :
    get_elem? (run sender (init contents) finished).processes 0
    ≡ some (record { content = codes "a"; stage = returned none })
first_returned = ap (λ ps. get_elem? ps 0) finished_processes

heard-quiet_example : Answered 1 (heard sender (init contents) 0 finished)
heard-quiet_example = heard-quiet sender contents finished 0 (codes "a") first_returned
