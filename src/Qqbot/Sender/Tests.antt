-- ===== src/Qqbot/Sender/Tests.antt =====
-- sender.go at concrete targets.
use gatus_qqbot.Base.{ℕ, true, List, [], ◌∷◌, ◌++◌, none, some, ◌≡◌, ◌≢◌, inl, inr, refl, sym, ◌∙◌}
use gatus_qqbot.Config.{TargetConfig}
use gatus_qqbot.Errors.{Error, sentinel, deadline_exceeded, message, is, is_error, join_errors}
use gatus_qqbot.Qqbot.Sender.{
  Call, Round, method_of, call_of, post_error, target_label, pass, pass_from, pass_posted,
  pass_failed, deliver_from, deliver, delivery_result,
}
use gatus_qqbot.Qqbot.Sender.Loop.{
  every_call, every_error, deliver_calls, deliver-Endures, deliver_ended,
}
use gatus_qqbot.Strings.{codes, text_eq, is_empty}

abbrev pub ops : TargetConfig
ops = record { name = []; target_type = codes "group"; id = codes "g1" }

abbrev pub user : TargetConfig
user = record { name = codes "me"; target_type = codes "user"; id = codes "u1" }

abbrev pub quiet : ℕ → Round
quiet i = record { before = none; posted = none; after = none }

abbrev down : ℕ → Round
down i = record { before = none; posted = some (message (codes "down")); after = none }

abbrev late : Error
late = sentinel deadline_exceeded

abbrev ending : ℕ → Round
ending i = record { before = none; posted = some late; after = some late }

both_fail :
    delivery_result (deliver down (codes "up") (ops ∷ user ∷ []))
    ≡ some (
        Error.both
          (Error.wrap (codes "deliver to group:g1: ") (message (codes "down")))
          (Error.wrap (codes "deliver to me: ") (message (codes "down"))))
unfolding delivery_result deliver deliver_from pass pass_from pass_posted pass_failed method_of
    call_of post_error target_label join_errors text_eq is_empty
both_fail = refl

deliver_calls_example :
    (rest : List Call) × ((deliver ending (codes "up") (ops ∷ user ∷ [])).calls ++ rest
      ≡ every_call (codes "up") (ops ∷ user ∷ []))
deliver_calls_example = deliver_calls ending (codes "up") (ops ∷ user ∷ [])

deliver-Endures_example : deliver down (codes "up") (ops ∷ user ∷ []) ≡ record {
  errs = every_error down 0 (ops ∷ user ∷ []);
  calls = every_call (codes "up") (ops ∷ user ∷ []);
}
deliver-Endures_example = deliver-Endures down (codes "up") (ops ∷ user ∷ []) (λ i. (refl, refl))

one_call :
    (deliver ending (codes "up") (ops ∷ user ∷ [])).calls ≡ every_call (codes "up") (ops ∷ [])
unfolding deliver deliver_from pass pass_from pass_posted pass_failed method_of call_of post_error
    target_label join_errors text_eq is_empty
one_call = refl

two_calls : every_call (codes "up") (ops ∷ []) ≢ every_call (codes "up") (ops ∷ user ∷ [])
unfolding method_of call_of text_eq
two_calls = λ e. cc

deliver_ended_example :
    is_error deadline_exceeded (delivery_result (deliver ending (codes "up") (ops ∷ user ∷ [])))
    ≡ true
unfolding is
deliver_ended_example =
    deliver_ended deadline_exceeded late ending (codes "up") (ops ∷ user ∷ []) refl
      (λ i. (inl refl, inr refl)) (λ e. two_calls (sym one_call ∙ e))
