-- ===== src/Logging/Accepted.antt =====
-- logging.go beside config.go: the loggers that can be made, and the configurations that are valid.
use gatus_qqbot.Base.{
  true, ◌||◌, not, Option, none, some, is_some, inr, ◌≡◌, ◌↔◌, refl, sym, ap, ◌∙◌, not-false, arith,
}
use gatus_qqbot.Config.{LogConfig, validate_log}
use gatus_qqbot.Config.Accepted.{check-nil}
use gatus_qqbot.Errors.{join_errors, join_errors-eq-none}
use gatus_qqbot.Server.Handler.{Level}
use gatus_qqbot.Logging.{Format, Logger, level_of, format_of, with_format, with_level, new_logger}
use gatus_qqbot.Strings.{Text, codes, text_eq, to_lower}

is_some-level_of :
    (t : Text)
    → is_some (level_of t) ≡ (
        text_eq t (codes "debug")
        || text_eq t (codes "info")
        || text_eq t (codes "warn")
        || text_eq t (codes "error"))
unfolding level_of
is_some-level_of t = ground arith

is_some-format_of :
    (t : Text) → is_some (format_of t) ≡ (text_eq t (codes "text") || text_eq t (codes "json"))
unfolding format_of
is_some-format_of t = ground arith

-- both names are known
abbrev IsKnown : LogConfig → Type 0
IsKnown c =
    (is_some (level_of (to_lower c.level)) ≡ true)
    × (is_some (format_of (to_lower c.format)) ≡ true)

with_format_iff :
    (c : LogConfig) (l : Level) (f : Option Format)
    → ((x : Logger) × (with_format c l f ≡ inr x)) ↔ (is_some f ≡ true)
unfolding with_format
with_format_iff c l none = (λ (x, h). absurd (cc), λ h. absurd (cc))
with_format_iff c l (some f) = (λ h. refl, λ h. (_, refl))

with_level_iff :
    (c : LogConfig) (l : Option Level)
    → ((x : Logger) × (with_level c l ≡ inr x))
      ↔ ((is_some l ≡ true) × (is_some (format_of (to_lower c.format)) ≡ true))
unfolding with_level
with_level_iff c none = (λ (x, h). absurd (cc), λ h. absurd (cc h.0))
with_level_iff c (some l) =
    let w = with_format_iff c l (format_of (to_lower c.format)) in
    (λ h. (refl, w.0 h), λ h. w.1 h.1)

new_logger-IsKnown : (c : LogConfig) → ((x : Logger) × (new_logger c ≡ inr x)) ↔ IsKnown c
unfolding new_logger
new_logger-IsKnown c = with_level_iff c (level_of (to_lower c.level))

validate_log-IsKnown : (c : LogConfig) → (validate_log c ≡ none) ↔ IsKnown c
unfolding validate_log
validate_log-IsKnown c = (
  λ h.
      let (l, r) = (check-nil _ _ _).0 (join_errors-eq-none _ h) in
      let (f, _) = (check-nil _ _ _).0 r in
      (is_some-level_of _ ∙ not-false _ l, is_some-format_of _ ∙ not-false _ f),
  λ (l, f).
      unfold join_errors in
      ap join_errors (
        (check-nil _ _ _).1 (
          ap not (sym (is_some-level_of _) ∙ l),
          (check-nil _ _ _).1 (ap not (sym (is_some-format_of _) ∙ f), refl),
        )),
)

-- `logging.New` makes a logger of a log section exactly when `validateLog` accepts the section.
pub new_logger_iff :
    (c : LogConfig) → ((l : Logger) × (new_logger c ≡ inr l)) ↔ (validate_log c ≡ none)
new_logger_iff c = (
  λ h. (validate_log-IsKnown c).1 ((new_logger-IsKnown c).0 h),
  λ h. (new_logger-IsKnown c).1 ((validate_log-IsKnown c).0 h),
)
