-- ===== src/Qqbot/Queue/Answered/Runs.antt =====
-- sender.go: what the API has answered to a call of `Send` that returns without an error, over a run.
use gatus_qqbot.Base.{
  ℕ, zero, suc, ◌+◌, List, [], ◌∷◌, ◌++◌, Option, none, some, ◌≡◌, ◌≢◌, ◌⊎◌, refl, sym, subst, ap,
  ◌∙◌, inl, inr, All, All-append, length, length-append, get_elem?, get_elem?-set_same,
  get_elem?-set_other, some-inj, ◌==◌, ==_iff, ==_refl, Bool-cases, arith,
}
use gatus_qqbot.Qqbot.Queue.{
  Sender, entering, returned, Process, Event, Move, act, System, commit, step_process, step, run,
  init,
}
use gatus_qqbot.Qqbot.Sender.{Round}
use gatus_qqbot.Strings.{Text}
use gatus_qqbot.Qqbot.Queue.Answered.{
  met, met_by, heard, IsQuiet, Answered, IsSpoilt, todo, Progresses, act-Progresses, Spoils,
  act-Spoils,
}

module _ (sender : Sender) (i : ℕ) where
  abbrev At : System → Process → Type 0
  At y p = get_elem? y.processes i ≡ some p

  commit_other :
      (y : System) (j : ℕ) (q : Process) (m : Option Move)
      → j ≢ i
      → get_elem? (commit y j q m).processes i ≡ get_elem? y.processes i
  unfolding commit
  commit_other y j q none n = refl
  commit_other y j q (some m) n = get_elem?-set_other y.processes j i _ n

  step_other :
      (y : System) (j : ℕ) (e : Event) (o : Option Process)
      → j ≢ i
      → get_elem? (step_process sender y j e o).processes i ≡ get_elem? y.processes i
  unfolding step_process
  step_other y j e none n = refl
  step_other y j e (some q) n = commit_other y j q (act sender y.slots q.content q.stage e) n

  -- what an event makes of the call
  abbrev Steps : System → ℕ × Event → Process → System → Type 0
  Steps y e p z =
      (At z p × (met_by i e (some p) ≡ []))
      ⊎ ((m : Move) × At z (record p { stage = m.stage })
          × (act sender y.slots p.content p.stage e.1 ≡ some m)
          × (met_by i e (some p) ≡ met e.1 p.stage))

  commit_own :
      (y : System) (e : Event) (p : Process) (m : Option Move)
      → At y p
      → act sender y.slots p.content p.stage e ≡ m
      → Progresses sender p.stage e m
      → Steps y (i, e) p (commit y i p m)
  unfolding commit
  commit_own y e p none h q n = inl (h, rw (==_refl i) n)
  commit_own y e p (some m) h q n =
      inr (m, get_elem?-set_same y.processes i _ h, q, rw (==_refl i) refl)

  step_own :
      (y : System) (e : Event) (p : Process)
      → At y p
      → Steps y (i, e) p (step_process sender y i e (some p))
  unfolding step_process
  step_own y e p h =
      commit_own y e p (act sender y.slots p.content p.stage e) h refl
        (act-Progresses sender y.slots p.content p.stage e)

  step_cases : (y : System) (e : ℕ × Event) (p : Process) → At y p → Steps y e p (step sender y e)
  unfolding step
  step_cases y (j, e) p h = elim (Bool-cases (j == i)) [
    | inl q ↦
        let same : j ≡ i = (==_iff j i).0 q in
        subst (λ k. Steps y (k, e) p (step_process sender y k e (get_elem? y.processes k)))
          (sym same)
          (subst (λ o. Steps y (i, e) p (step_process sender y i e o)) (sym h) (step_own y e p h))
    | inr q ↦
        let n : j ≢ i = λ k. absurd (cc ((==_iff j i).1 k, q)) in
        inl (step_other y j e (get_elem? y.processes j) n ∙ h, rw q refl)
  ]

  Spoils-at : {o : Option Move} (m : Move) → o ≡ some m → Spoils o → IsSpoilt m.stage
  Spoils-at m q h = subst Spoils q h

  run-IsSpoilt :
      (y : System) (es : List (ℕ × Event)) (p : Process)
      → At y p
      → IsSpoilt p.stage
      → (q : Process) × At (run sender y es) q × IsSpoilt q.stage
  unfolding run
  run-IsSpoilt y [] p h s = (p, h, s)
  run-IsSpoilt y (e ∷ es) p h s = elim (step_cases y e p h) [
    | inl (g, _) ↦ run-IsSpoilt (step sender y e) es p g s
    | inr (m, g, a, _) ↦
        run-IsSpoilt (step sender y e) es (record p { stage = m.stage }) g
          (Spoils-at m a (act-Spoils sender y.slots p.content p.stage e.1 s))
  ]

  Answered-append :
      (rs ss : List Round) (m n : ℕ)
      → All IsQuiet rs
      → length rs + m ≡ n
      → Answered m ss
      → Answered n (rs ++ ss)
  Answered-append rs ss m n a l (b, k) =
      (All-append IsQuiet rs ss a b, omega (arith, length-append rs ss, l, k))

  -- the call returns without an error at the end of the run
  abbrev Ends : System → List (ℕ × Event) → Type 0
  Ends y es = (c : Text) × At (run sender y es) (record { content = c; stage = returned none })

  spoilt-Ends :
      (y : System) (es : List (ℕ × Event)) (p : Process) → At y p → IsSpoilt p.stage → Ends y es → ⊥
  spoilt-Ends y es p h s (c, k) =
      let (q, g, t) = run-IsSpoilt y es p h s in
      subst (λ (x : Process). IsSpoilt x.stage) (some-inj (sym g ∙ k)) t

  heard-step :
      (y : System) (e : ℕ × Event) (es : List (ℕ × Event)) (p : Process) (rs : List Round) (n : ℕ)
      → At y p
      → met_by i e (some p) ≡ rs
      → Answered n (rs ++ heard sender (step sender y e) i es)
      → Answered n (heard sender y i (e ∷ es))
  heard-step y e es p rs n h q a =
      subst (λ o. Answered n (met_by i e o ++ heard sender (step sender y e) i es)) (sym h)
        (subst (λ xs. Answered n (xs ++ heard sender (step sender y e) i es)) (sym q) a)

  later :
      (y : System) (e : ℕ × Event) (es : List (ℕ × Event))
      → Ends y (e ∷ es)
      → Ends (step sender y e) es
  unfolding run
  later y e es d = d

  heard-Answered :
      (y : System) (es : List (ℕ × Event)) (p : Process)
      → At y p
      → Ends y es
      → Answered (todo sender p.stage) (heard sender y i es)
  unfolding run
  heard-Answered y [] p h (c, k) =
      (tt, subst (λ (x : Process). 0 ≡ todo sender x.stage) (some-inj (sym k ∙ h)) refl)
  heard-Answered y (e ∷ es) p h d = elim (step_cases y e p h) [
    | inl (g, n) ↦
        heard-step y e es p [] (todo sender p.stage) h n
          (heard-Answered (step sender y e) es p g (later y e es d))
    | inr (m, g, a, n) ↦
        elim (subst (Progresses sender p.stage e.1) a
          (act-Progresses sender y.slots p.content p.stage e.1)) [
            | inl s ↦ absurd (
                spoilt-Ends (step sender y e) es (record p { stage = m.stage }) g s
                  (later y e es d))
            | inr (quiet, l) ↦ heard-step y e es p (met e.1 p.stage) (todo sender p.stage) h n (
                Answered-append (met e.1 p.stage) _ (todo sender m.stage) _ quiet l (
                  heard-Answered (step sender y e) es (record p { stage = m.stage }) g
                    (later y e es d)))
          ]
  ]

  -- There is no such call.
  step_absent :
      (y : System) (e : ℕ × Event)
      → get_elem? y.processes i ≡ none
      → get_elem? (step sender y e).processes i ≡ none
  unfolding step step_process
  step_absent y (j, e) h = elim (Bool-cases (j == i)) [
    | inl q ↦
        let same : j ≡ i = (==_iff j i).0 q in
        subst
          (λ k. get_elem? (step_process sender y k e (get_elem? y.processes k)).processes i ≡ none)
          (sym same)
          (subst (λ o. get_elem? (step_process sender y i e o).processes i ≡ none) (sym h) h)
    | inr q ↦
        let n : j ≢ i = λ k. absurd (cc ((==_iff j i).1 k, q)) in
        step_other y j e (get_elem? y.processes j) n ∙ h
  ]

  run_absent :
      (y : System) (es : List (ℕ × Event))
      → get_elem? y.processes i ≡ none
      → get_elem? (run sender y es).processes i ≡ none
  unfolding run
  run_absent y [] h = h
  run_absent y (e ∷ es) h = run_absent (step sender y e) es (step_absent y e h)

-- where a call of `Send` begins
init-At :
    (contents : List Text) (i : ℕ) (p : Process)
    → get_elem? (init contents).processes i ≡ some p
    → p.stage ≡ entering
init-At [] i p h = absurd (cc)
init-At (c ∷ cs) zero p h = ap (λ (x : Process). x.stage) (sym (some-inj h))
init-At (c ∷ cs) (suc i) p h = init-At cs i p h

module _ (sender : Sender) (contents : List Text) (es : List (ℕ × Event)) (i : ℕ) where
  began-Answered :
      (o : Option Process)
      → get_elem? (init contents).processes i ≡ o
      → Ends sender i (init contents) es
      → Answered (length sender.targets) (heard sender (init contents) i es)
  began-Answered none h (c, k) = absurd (cc (run_absent sender i (init contents) es h, k))
  began-Answered (some p) h d =
      subst (λ s. Answered (todo sender s) (heard sender (init contents) i es))
        (init-At contents i p h) (heard-Answered sender i (init contents) es p h d)

  -- However calls of `Send` interleave: if one of them has returned without an error, then the passes
  -- of its loop have met one round for each target, and in each the context had not ended and the API
  -- reported no error.
  pub heard-quiet :
      (content : Text)
      → get_elem? (run sender (init contents) es).processes i
        ≡ some (record { content = content; stage = returned none })
      → Answered (length sender.targets) (heard sender (init contents) i es)
  heard-quiet content k = began-Answered (get_elem? (init contents).processes i) refl (content, k)
