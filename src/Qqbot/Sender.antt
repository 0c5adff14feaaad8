-- ===== src/Qqbot/Sender.antt =====
-- internal/qqbot/sender.go: the targets of `Send`, and the loop that delivers to each of them.
-- What the QQ API answers and when the context ends are given by a `Round` for each target.
pub mod Loop
pub mod Tests
use gatus_qqbot.Base.{
  ℕ, suc, Bool, true, false, List, [], ◌∷◌, ◌++◌, Option, none, some, if◌then◌else◌,
}
use gatus_qqbot.Config.{TargetConfig}
use gatus_qqbot.Errors.{Error, message, wrap, join_errors}
use gatus_qqbot.Strings.{Text, codes, text_eq, is_empty}

-- the three methods of `messageAPI`
pub data Method : Type 0 where
  post_message post_group_message post_c2c_message : Method

-- a call of the API: the method, the target's id and the content of the text message
pub record Call : Type 0 where
  pub method : Method
  pub target_id : Text
  pub content : Text

-- What one pass through the loop meets: `ctx.Err()` at its top, the API's error, and `ctx.Err()`
-- behind a failed delivery.
pub record Round : Type 0 where
  pub before : Option Error
  pub posted : Option Error
  pub after : Option Error

-- the `switch` over the target's type; `none` is its default
unfoldable pub method_of : TargetConfig → Option Method
method_of t =
    if text_eq t.target_type (codes "channel")
    then some post_message
    else if text_eq t.target_type (codes "group")
    then some post_group_message
    else if text_eq t.target_type (codes "user")
    then some post_c2c_message
    else none

unfoldable pub target_label : TargetConfig → Text
target_label t = if is_empty t.name then t.target_type ++ (b':' ∷ t.id) else t.name

-- The type is printed without the escapes of %q.
abbrev pub unsupported_type : TargetConfig → Error
unsupported_type t = message (codes "unsupported target type \"" ++ (t.target_type ++ codes "\""))

-- the error of one delivery, and the call that it made
unfoldable pub call_of : Text → TargetConfig → Option Method → List Call
call_of content t none = []
call_of content t (some m) = record { method = m; target_id = t.id; content = content } ∷ []

unfoldable pub post_error : TargetConfig → Round → Option Method → Option Error
post_error t r none = some (unsupported_type t)
post_error t r (some m) = r.posted

-- One pass: the errors that it appends, the calls that it makes, and whether the loop goes on.
pub record Pass : Type 0 where
  pub errs : List Error
  pub calls : List Call
  pub go_on : Bool

abbrev delivery_error : TargetConfig → Error → Error
delivery_error t e = wrap (codes "deliver to " ++ (target_label t ++ codes ": ")) e

unfoldable pub pass_failed : TargetConfig → Round → List Call → Error → Option Error → Pass
pass_failed t r calls e none = record {
  errs = delivery_error t e ∷ [];
  calls = calls;
  go_on = true;
}
pass_failed t r calls e (some c) = record {
  errs = delivery_error t e ∷ c ∷ [];
  calls = calls;
  go_on = false;
}

unfoldable pub pass_posted : TargetConfig → Round → List Call → Option Error → Pass
pass_posted t r calls none = record { errs = []; calls = calls; go_on = true }
pass_posted t r calls (some e) = pass_failed t r calls e r.after

unfoldable pub pass_from : Text → TargetConfig → Round → Option Error → Pass
pass_from content t r (some e) = record { errs = e ∷ []; calls = []; go_on = false }
pass_from content t r none =
    pass_posted t r (call_of content t (method_of t)) (post_error t r (method_of t))

unfoldable pub pass : Text → TargetConfig → Round → Pass
pass content t r = pass_from content t r r.before

-- The errors and the calls of a loop, in order.
pub record Delivery : Type 0 where
  pub errs : List Error
  pub calls : List Call

abbrev pub nothing : Delivery
nothing = record { errs = []; calls = [] }

abbrev pub after_pass : Pass → Delivery → Delivery
after_pass p rest =
    let tail = if p.go_on then rest else nothing in
    record { errs = p.errs ++ tail.errs; calls = p.calls ++ tail.calls }

-- The loop; `rounds i` is what the pass for the target at position `i` meets.
unfoldable pub deliver_from : (ℕ → Round) → ℕ → Text → List TargetConfig → Delivery
deliver_from rounds i content [] = nothing
deliver_from rounds i content (t ∷ ts) =
    after_pass (pass content t (rounds i)) (deliver_from rounds (suc i) content ts)

unfoldable pub deliver : (ℕ → Round) → Text → List TargetConfig → Delivery
deliver rounds content targets = deliver_from rounds 0 content targets

-- what `Send` returns once it holds the gate
unfoldable pub delivery_result : Delivery → Option Error
delivery_result d = join_errors d.errs

-- One call of `Send`. The first argument is the error with which it returns before it holds the gate,
-- if it does: `ctx.Err()` or that of a full queue.
unfoldable pub send : Option Error → (ℕ → Round) → List TargetConfig → Text → Option Error
unfolding delivery_result deliver
send (some e) rounds targets content = some e
send none rounds targets content = delivery_result (deliver rounds content targets)
