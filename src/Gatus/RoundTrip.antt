-- ===== src/Gatus/RoundTrip.antt =====
-- alert.go: the text form of an alert is read back by TextMetadata.
use gatus_qqbot.Base.{
  false, List, [], ◌∷◌, ◌++◌, ◌≡◌, ◌≢◌, ◌⊎◌, refl, sym, ap, ◌∙◌, subst, arith, none, inl, inr,
  Bool-cases, All, All-mono, All-append, append-nil,
}
use gatus_qqbot.Gatus.{
  Alert, one_line, multi_line, log_value, labelled, format_lines, format, with_prefix, truncate,
  validate, metadata_of, state_of, endpoint_of, endpoint_or, text_metadata, unbracket,
}
use gatus_qqbot.Gatus.Metadata.{one_line-Inline}
use gatus_qqbot.Gatus.Validate.{validate_iff}
use gatus_qqbot.Strings.{
  Text, codes, newline, space, is_empty, is_space, trim_space, trim_left, trim_right, join, split,
  cut, cons_before, equal_fold, text_eq, to_upper,
}
use gatus_qqbot.Strings.Lines.{
  NoReturn, replace_all-NoReturn, NoReturn-replace_all, split_part, split_last,
}
use gatus_qqbot.Strings.Space.{
  StartsClean, trim_space-All, trim_space_idem, trim_space-StartsClean, trim_left_clean,
  trim_right-append_tight, trim_right-append,
}
use gatus_qqbot.Strings.Words.{
  Inline, fields-join, fields-IsWord, fields-space, join-All, join-fields-ne-nil,
  join-fields-StartsClean, trim_right-join-fields,
}

one_line-NoReturn : (s : Text) → NoReturn (one_line s)
one_line-NoReturn s = All-mono Inline _ (λ c h. h.1) _ (one_line-Inline s)

NoReturn-multi_line : (s : Text) → NoReturn (multi_line s)
unfolding multi_line
NoReturn-multi_line s = trim_space-All _ _ (NoReturn-replace_all _)

labelled-NoReturn :
    (label value : Text) → NoReturn label → NoReturn value → All NoReturn (labelled label value)
labelled-NoReturn label value h k = elim (Bool-cases (is_empty value)) [
  | inl e ↦ rw e tt
  | inr e ↦ rw e (All-append _ label value h k, tt)
]

format_lines-NoReturn : (a : Alert) → All NoReturn (format_lines a)
unfolding format_lines
format_lines-NoReturn a = (
  one_line-NoReturn a.state,
  (
    All-append _ (codes "Endpoint: ") _ (omega arith) (one_line-NoReturn (log_value a)),
    All-append _ (labelled (codes "URL: ") (one_line a.endpoint_url)) _
        (labelled-NoReturn (codes "URL: ") _ (omega arith) (one_line-NoReturn a.endpoint_url))
        (All-append _ (labelled (codes "Description: ") (multi_line a.description)) _
          (labelled-NoReturn (codes "Description: ") _ (omega arith)
            (NoReturn-multi_line a.description))
          (labelled-NoReturn (codes "Errors: ") _ (omega arith) (NoReturn-multi_line a.errors))),
  ),
)

-- With nothing to replace, multiLine only trims.
multi_line-NoReturn : (s : Text) → NoReturn s → multi_line s ≡ trim_space s
unfolding multi_line
multi_line-NoReturn s h = rw (
  replace_all-NoReturn (newline ∷ []) (newline ∷ []) s h,
  replace_all-NoReturn [] (newline ∷ []) s h,
)

-- The first two lines of a text survive trimming if neither has a space at its ends.
abbrev TightLines : Text → Text → Type 0
TightLines first second =
    (StartsClean first) × (first ≢ []) × (second ≢ []) × (trim_right second ≡ second)

StartsClean-append : (s t : Text) → StartsClean s → s ≢ [] → StartsClean (s ++ t)
StartsClean-append [] t h n = absurd (n refl)
StartsClean-append (c ∷ s) t h n = h

append-ne-nil : (s t : Text) → s ≢ [] → s ++ t ≢ []
append-ne-nil [] t n = absurd (n refl)
append-ne-nil (c ∷ s) t n = λ e. cc

trim_two_lines :
    (first second tail : Text)
    → TightLines first second
    → trim_space (first ++ (newline ∷ (second ++ tail)))
      ≡ first ++ (newline ∷ (second ++ trim_right tail))
unfolding trim_space
trim_two_lines first second tail h =
    rw (trim_left_clean _ (StartsClean-append first _ h.0 h.1))
      (trim_right-append first _ (λ e. cc (e, spelled)) ∙ ap (◌++◌ first) spelled)
  where
    body : trim_right (second ++ tail) ≡ second ++ trim_right tail
    body = trim_right-append_tight second tail h.3

    spelled : trim_right (newline ∷ (second ++ tail)) ≡ newline ∷ (second ++ trim_right tail)
    spelled =
        trim_right-append (newline ∷ []) (second ++ tail)
          (λ e. append-ne-nil second _ h.2 (sym body ∙ e))
        ∙ ap (◌∷◌ newline) body

-- What follows the second line: nothing, or a newline and more.
abbrev IsTail : Text → Type 0
IsTail t = (t ≡ []) ⊎ ((s : Text) × (t ≡ newline ∷ s))

trim_right-IsTail : (t : Text) → IsTail t → IsTail (trim_right t)
unfolding trim_right
trim_right-IsTail t (inl e) = inl (rw (e, trim_right))
trim_right-IsTail t (inr (s, e)) = elim (Bool-cases (is_empty (trim_right s))) [
  | inl b ↦ inl (rw (e, b) (unfold is_space in refl))
  | inr b ↦ inr (trim_right s, rw (e, b) (unfold is_space in refl))
]

tail_of : List Text → Text
tail_of [] = []
tail_of (q ∷ qs) = newline ∷ join (newline ∷ []) (q ∷ qs)

tail_of-IsTail : (lines : List Text) → IsTail (tail_of lines)
unfolding tail_of
tail_of-IsTail [] = inl refl
tail_of-IsTail (q ∷ qs) = inr (_, refl)

join_two_lines :
    (first second : Text) (lines : List Text)
    → join (newline ∷ []) (first ∷ second ∷ lines) ≡ first ++ (newline ∷ (second ++ tail_of lines))
unfolding join tail_of
join_two_lines first second [] = simp append-nil
join_two_lines first second (q ∷ qs) = refl

split_tail :
    (line tail : Text)
    → All (λ c. c ≢ newline) line
    → IsTail tail
    → (more : List Text) × (split newline (line ++ tail) ≡ line ∷ more)
split_tail line tail h (inl e) = ([], rw (e, append-nil) (split_last newline line h))
split_tail line tail h (inr (s, e)) = (split newline s, rw e (split_part newline line s h))

-- The first two lines of a joined text are the first two lines that multiLine and Split find.
two_lines :
    (first second : Text) (lines : List Text)
    → TightLines first second
    → All (λ c. c ≢ newline) first
    → All (λ c. c ≢ newline) second
    → All NoReturn (first ∷ second ∷ lines)
    → (more : List Text) × (split newline
          (multi_line (join (newline ∷ []) (first ∷ second ∷ lines)))
        ≡ first ∷ second ∷ more)
two_lines first second lines tight hf hs clean =
    let (more, e) = split_tail second _ hs (trim_right-IsTail _ (tail_of-IsTail lines)) in
    (
      more,
      rw (
        multi_line-NoReturn _ (join-All _ newline (first ∷ second ∷ lines) (omega arith) clean),
        join_two_lines first second lines,
        trim_two_lines first second _ tight,
        split_part newline first (second ++ trim_right (tail_of lines)) hf,
        e,
      ),
    )

endpoint_line : Text → Text
endpoint_line name = codes "Endpoint: " ++ one_line name

endpoint_line-tight :
    (name : Text) → trim_space name ≢ [] → trim_right (endpoint_line name) ≡ endpoint_line name
unfolding endpoint_line one_line
endpoint_line-tight name h =
    trim_right-append (codes "Endpoint: ") _
      (λ e. join-fields-ne-nil name h (sym (trim_right-join-fields name) ∙ e))
    ∙ ap (◌++◌ (codes "Endpoint: ")) (trim_right-join-fields name)

one_line_after_space : (s : Text) → one_line (space ∷ one_line s) ≡ one_line s
unfolding one_line
one_line_after_space s = rw fields-space (ap (join (space ∷ [])) (fields-join _ (fields-IsWord s)))

endpoint_of_line :
    (name : Text) (more : List Text) → endpoint_of (endpoint_line name ∷ more) ≡ one_line name
unfolding endpoint_of endpoint_or endpoint_line cut cons_before equal_fold trim_space trim_left
    trim_right is_space is_empty
endpoint_of_line name more = one_line_after_space name

-- A state that TextMetadata knows, whatever the spaces around it.
abbrev pub IsReported : Text → Type 0
IsReported s = (one_line s ≡ codes "TRIGGERED") ⊎ (one_line s ≡ codes "RESOLVED")

triggered_lines :
    (lines : List Text)
    → metadata_of (codes "TRIGGERED" ∷ lines) ≡ (endpoint_of lines, codes "TRIGGERED")
unfolding metadata_of state_of unbracket to_upper text_eq trim_space trim_left trim_right is_space
    is_empty
triggered_lines lines = refl

resolved_lines :
    (lines : List Text)
    → metadata_of (codes "RESOLVED" ∷ lines) ≡ (endpoint_of lines, codes "RESOLVED")
unfolding metadata_of state_of unbracket to_upper text_eq trim_space trim_left trim_right is_space
    is_empty
resolved_lines lines = refl

metadata_of_lines :
    (state : Text) (lines : List Text)
    → (state ≡ codes "TRIGGERED") ⊎ (state ≡ codes "RESOLVED")
    → metadata_of (state ∷ lines) ≡ (endpoint_of lines, state)
metadata_of_lines state lines (inl e) =
    subst (λ s. metadata_of (s ∷ lines) ≡ (endpoint_of lines, s)) (sym e) (triggered_lines lines)
metadata_of_lines state lines (inr e) =
    subst (λ s. metadata_of (s ∷ lines) ≡ (endpoint_of lines, s)) (sym e) (resolved_lines lines)

trim_space-ne-nil : (s : Text) → StartsClean s → s ≢ [] → trim_space s ≢ []
unfolding trim_space
trim_space-ne-nil [] h n = absurd (n refl)
trim_space-ne-nil (c ∷ s) h n =
    rw (trim_left_clean (c ∷ s) h) (unfold trim_right in (rw h (λ e. cc)))

is_empty-ne-nil : (s : Text) → is_empty s ≡ false → s ≢ []
unfolding is_empty
is_empty-ne-nil [] h = λ e. cc
is_empty-ne-nil (c ∷ s) h = λ e. cc

log_value-ne-nil :
    (a : Alert) → is_empty (trim_space a.endpoint_name) ≡ false → trim_space (log_value a) ≢ []
unfolding log_value
log_value-ne-nil a h = elim (Bool-cases (is_empty (trim_space a.endpoint_group))) [
  | inl e ↦ rw e (rw (trim_space_idem a.endpoint_name) (is_empty-ne-nil _ h))
  | inr e ↦ rw e (
      trim_space-ne-nil _ (StartsClean-append _ _ (trim_space-StartsClean _) (is_empty-ne-nil _ e))
        (append-ne-nil _ _ (is_empty-ne-nil _ e)))
]

format_plain : (a : Alert) → format a [] 0 ≡ join (newline ∷ []) (format_lines a)
unfolding format with_prefix truncate trim_space trim_left trim_right is_empty
format_plain a = refl

reported_lines :
    (a : Alert)
    → validate a ≡ none
    → IsReported a.state
    → (more : List Text) × (split newline (multi_line (join (newline ∷ []) (format_lines a)))
        ≡ one_line a.state ∷ endpoint_line (log_value a) ∷ more)
unfolding format_lines endpoint_line
reported_lines a valid reported =
    two_lines (one_line a.state) (endpoint_line (log_value a)) _ tight
      (All-mono Inline _ (λ c h. h.0) _ (one_line-Inline a.state))
      (All-append _ (codes "Endpoint: ") _ (omega arith)
        (All-mono Inline _ (λ c h. h.0) _ (one_line-Inline (log_value a))))
      (format_lines-NoReturn a)
  where
    tight : TightLines (one_line a.state) (endpoint_line (log_value a))
    tight = (
      unfold one_line in (join-fields-StartsClean a.state),
      λ e. ground arith,
      λ e. cc,
      endpoint_line-tight _ (log_value-ne-nil a ((validate_iff a).0 valid).1),
    )

-- The message of a valid alert whose state is TRIGGERED or RESOLVED, with no prefix and no limit,
-- is read back by TextMetadata as the alert's own state and endpoint, whatever its other fields hold.
pub text_metadata-format :
    (a : Alert)
    → validate a ≡ none
    → IsReported a.state
    → text_metadata (format a [] 0) ≡ (one_line (log_value a), one_line a.state)
unfolding text_metadata
text_metadata-format a valid reported =
    let (more, e) = reported_lines a valid reported in
    rw (format_plain a, e, metadata_of_lines _ (endpoint_line (log_value a) ∷ more) reported)
      (ap (λ t. (t, one_line a.state)) (endpoint_of_line (log_value a) more))
