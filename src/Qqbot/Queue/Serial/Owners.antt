-- ===== src/Qqbot/Queue/Serial/Owners.antt =====
-- sender.go: whose the deliveries are.
use gatus_qqbot.Base.{
  ℕ, List, [], ◌∷◌, ◌++◌, some, ◌≡◌, ◌≢◌, ◌⊎◌, inl, inr, refl, sym, subst, ap, ◌∙◌, All, All-mono,
  All-append, append-nil, get_elem?, get_elem?-set_same, get_elem?-set_other, set, some-inj,
}
use gatus_qqbot.Qqbot.Queue.{
  Sender, Slots, Stage, entering, selecting, waiting, acquired, posting, returned, Process, Event,
  proceed, ended, round, Move, act,
}
use gatus_qqbot.Qqbot.Queue.Serial.{Past, IsLast}
use gatus_qqbot.Qqbot.Sender.{deliver, delivery_result}
use gatus_qqbot.Strings.{Text}

-- the call of a delivery, returned with the result of that delivery
abbrev pub owner : Sender → Past → Process
owner sender d = record {
  content = d.content;
  stage = returned (delivery_result (deliver d.rounds d.content sender.targets));
}

abbrev pub IsOwned : Sender → List Process → Past → Type 0
IsOwned sender ps d = get_elem? ps d.process ≡ some (owner sender d)

-- No two deliveries are of the same call.
abbrev pub Distinct : List Past → Type 0
Distinct [] = Unit
Distinct (d ∷ ds) = All (λ e. e.process ≢ d.process) ds × Distinct ds

Distinct-append :
    (ds : List Past) (d : Past)
    → All (λ e. e.process ≢ d.process) ds
    → Distinct ds
    → Distinct (ds ++ (d ∷ []))
Distinct-append [] d n h = (tt, tt)
Distinct-append (e ∷ ds) d (m, n) (k, h) = (
  All-append (λ x. x.process ≢ e.process) ds (d ∷ []) k ((λ q. m (sym q)), tt),
  Distinct-append ds d n h,
)

abbrev pub Live : Stage → Type 0
Live (returned o) = ⊥
Live _ = Unit

-- A call that has returned does not move.
pub act-Live :
    (sender : Sender) (s : Slots) (content : Text) (stage : Stage) (e : Event) (m : Move)
    → act sender s content stage e ≡ some m
    → Live stage
unfolding act
act-Live sender s content entering e m h = tt
act-Live sender s content selecting e m h = tt
act-Live sender s content waiting e m h = tt
act-Live sender s content acquired e m h = tt
act-Live sender s content (posting t ts errs) e m h = tt
act-Live sender s content (returned o) proceed m h = absurd (cc)
act-Live sender s content (returned o) (ended e) m h = absurd (cc)
act-Live sender s content (returned o) (round r) m h = absurd (cc)

module _ (sender : Sender) (ps : List Process) (i : ℕ) (p : Process) (m : Move) where
  other_process :
      get_elem? ps i ≡ some p → Live p.stage → (d : Past) → IsOwned sender ps d → d.process ≢ i
  other_process h l d o e =
      let same : get_elem? ps i ≡ some (owner sender d) =
        subst (λ n. get_elem? ps n ≡ some (owner sender d)) e o in
      subst (λ (x : Process). Live x.stage) (some-inj (sym h ∙ same)) l

  -- the calls behind the move
  abbrev after : List Process
  after = set ps i (record p { stage = m.stage })

  kept-IsOwned :
      get_elem? ps i ≡ some p
      → Live p.stage
      → (d : Past) → IsOwned sender ps d
      → IsOwned sender after d
  kept-IsOwned h l d o =
      get_elem?-set_other ps i d.process _ (λ e. other_process h l d o (sym e)) ∙ o

  last-IsOwned :
      get_elem? ps i ≡ some p → (d : Past) → IsLast sender i p m d → IsOwned sender after d
  last-IsOwned h d (q, c, k, r) =
      let same_process : record p { stage = m.stage } ≡ owner sender d = rw (r, c) refl in
      subst (λ n. get_elem? after n ≡ some (owner sender d)) (sym q)
        (get_elem?-set_same ps i (record p { stage = m.stage }) h ∙ ap some same_process)

  -- The owners behind a move.
  pub moved-IsOwned :
      (past more : List Past)
      → get_elem? ps i ≡ some p
      → Live p.stage
      → ((more ≡ []) ⊎ ((d : Past) × (more ≡ d ∷ []) × IsLast sender i p m d))
      → All (IsOwned sender ps) past
      → Distinct past
      → All (IsOwned sender after) (past ++ more) × Distinct (past ++ more)
  moved-IsOwned past more h l (inl e) o d =
      rw e (rw (append-nil past) (All-mono _ _ (kept-IsOwned h l) past o, d))
  moved-IsOwned past more h l (inr (x, e, last)) o d = rw e (
    All-append _ past (x ∷ []) (All-mono _ _ (kept-IsOwned h l) past o) (last-IsOwned h x last, tt),
    Distinct-append past x
        (All-mono _ _ (λ y owned same. other_process h l y owned (same ∙ last.0)) past o) d,
  )
