-- ===== src/Qqbot/Queue/Serial/Reachable.antt =====
-- sender.go: in every reachable state the log is made of whole deliveries.
use gatus_qqbot.Base.{
  ℕ, zero, suc, List, [], ◌∷◌, ◌++◌, append_assoc, Option, none, some, ◌≡◌, ◌⊎◌, refl, sym, subst,
  ◌∙◌, inl, inr, get_elem?, get_elem?-set, some-inj, ◌≢◌, All, total-ge, total-two, arith,
}
use gatus_qqbot.Qqbot.Queue.{
  Sender, Process, Event, Move, act, System, commit, step_process, step, run, init, is_delivering,
}
use gatus_qqbot.Qqbot.Queue.Invariant.{Inv, step-Inv, init-Inv}
use gatus_qqbot.Qqbot.Queue.Serial.{Past, all_calls, Stands}
use gatus_qqbot.Qqbot.Queue.Serial.Owners.{IsOwned, Distinct, Live, act-Live, moved-IsOwned}
use gatus_qqbot.Qqbot.Sender.{Call}
use gatus_qqbot.Strings.{Text}
use gatus_qqbot.Qqbot.Queue.Serial.Moves.{MovedFor, act-Moved, Stands-append, Stands-quiet}

-- The log is that of whole deliveries and of one that is not over, if there is one; each is of a call
-- of its own that has returned with its result.
abbrev pub Serial : Sender → System → Type 0
Serial sender y =
    (past : List Past) × (current : List Call) × (y.log ≡ all_calls sender past ++ current)
    × (y.slots.gate ≡ 0 → current ≡ [])
    × All (IsOwned sender y.processes) past
    × Distinct past
    × ((j : ℕ) (q : Process)
        → get_elem? y.processes j ≡ some q
        → Stands sender past current j q.content q.stage)

others-Stands :
    (sender : Sender) (y : System) (i j : ℕ) (p q : Process) (past more : List Past)
    (current current' : List Call)
    → Inv sender y
    → get_elem? y.processes i ≡ some p
    → get_elem? y.processes j ≡ some q
    → i ≢ j
    → (current' ≡ current) ⊎ (is_delivering p ≡ 1)
    → Stands sender past current j q.content q.stage
    → Stands sender (past ++ more) current' j q.content q.stage
others-Stands sender y i j p q past more current current' v h f n (inl e) s =
    subst (λ c. Stands sender (past ++ more) c j q.content q.stage) (sym e)
      (Stands-append sender past more current j q.content q.stage s)
others-Stands sender y i j p q past more current current' v h f n (inr d) s =
    Stands-append sender past more current' j q.content q.stage (
      Stands-quiet sender past current current' j q.content q.stage
        (λ d'. n (
          total-two is_delivering y.processes i j h f d d'
            (omega (arith, v.delivering, v.exclusive))))
        s)

commit-Serial :
    (sender : Sender) (y : System) (i : ℕ) (p : Process) (m : Option Move)
    → get_elem? y.processes i ≡ some p
    → Inv sender y
    → ((m' : Move) → m ≡ some m' → Live p.stage)
    → ((past : List Past) (current : List Call)
        → (y.slots.gate ≡ 0 → current ≡ [])
        → Stands sender past current i p.content p.stage
        → MovedFor sender past current i p m)
    → Serial sender y
    → Serial sender (commit y i p m)
unfolding commit
commit-Serial sender y i p none h v l f s = s
commit-Serial sender y i p (some m) h v l f (past, current, logged, idle, owned, distinct, stands) =
    let (more, current', log, idle', now, same, last) = f past current idle (stands i p h) in
    let (owned', distinct') =
      moved-IsOwned sender y.processes i p m past more h (l m refl) last owned distinct in
    (
      past ++ more,
      current',
      rw logged (append_assoc (all_calls sender past) current m.calls ∙ log),
      idle',
      owned',
      distinct',
      λ j q k. elim (get_elem?-set y.processes i j (record p { stage = m.stage }) k) [
        | inl (e, f) ↦
            subst (λ n. Stands sender (past ++ more) current' n q.content q.stage) e
              (subst (λ (x : Process). Stands sender (past ++ more) current' i x.content x.stage) f
                now)
        | inr (n, f) ↦
            others-Stands sender y i j p q past more current current' v h f n same (stands j q f)
      ],
    )

step_process-Serial :
    (sender : Sender) (y : System) (i : ℕ) (e : Event) (o : Option Process)
    → get_elem? y.processes i ≡ o
    → Inv sender y
    → Serial sender y
    → Serial sender (step_process sender y i e o)
unfolding step_process
step_process-Serial sender y i e none h v s = s
step_process-Serial sender y i e (some p) h v s =
    commit-Serial sender y i p (act sender y.slots p.content p.stage e) h v
      (act-Live sender y.slots p.content p.stage e)
      (λ past current idle now.
        act-Moved sender past current i y.slots p.content p.stage e idle
          (omega (arith, v.delivering, total-ge is_delivering y.processes i h)) now)
      s

step-Serial :
    (sender : Sender) (y : System) (e : ℕ × Event)
    → Inv sender y
    → Serial sender y
    → Serial sender (step sender y e)
unfolding step
step-Serial sender y (i, e) v s = step_process-Serial sender y i e _ refl v s

run-Serial :
    (sender : Sender) (y : System) (es : List (ℕ × Event))
    → Inv sender y
    → Serial sender y
    → Serial sender (run sender y es)
unfolding run
run-Serial sender y [] v s = s
run-Serial sender y (e ∷ es) v s =
    run-Serial sender (step sender y e) es (step-Inv sender y e v) (step-Serial sender y e v s)

entering-Stands :
    (sender : Sender) (contents : List Text) (j k : ℕ) (q : Process)
    → get_elem? (init contents).processes j ≡ some q
    → Stands sender [] [] k q.content q.stage
entering-Stands sender [] j k q h = absurd (cc)
entering-Stands sender (c ∷ cs) zero k q h =
    subst (λ (x : Process). Stands sender [] [] k x.content x.stage) (some-inj h) tt
entering-Stands sender (c ∷ cs) (suc j) k q h = entering-Stands sender cs j k q h

-- However calls of `Send` interleave, the calls of the API are those of whole loops, one behind the other,
-- and then those of a loop that is not over, if there is one: while the gate is free there is none.
-- No two of the whole loops are of the same call of `Send`, and each has the message of its call,
-- which has returned with the result of the loop. And a call that has returned without an error has
-- one of these loops for its own, and in it every target has got its message, in order.
pub reachable-Serial :
    (sender : Sender) (contents : List Text) (es : List (ℕ × Event))
    → Serial sender (run sender (init contents) es)
reachable-Serial sender contents es =
    run-Serial sender (init contents) es (init-Inv sender contents)
      ([], [], refl, λ g. refl, tt, tt, λ j q h. entering-Stands sender contents j j q h)
