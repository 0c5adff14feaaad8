-- ===== src/Gatus.antt =====
-- internal/gatus/alert.go: the alert, its validation, and the messages made of it.
pub mod Length
pub mod Validate
pub mod Metadata
pub mod RoundTrip
mod Tests
use gatus_qqbot.Base.{
  ℕ, ◌-◌, Bool, ◌&&◌, ◌||◌, not, List, [], ◌∷◌, ◌++◌, map, Option, none, some, ltb, leb, ◌==◌,
  if◌then◌else◌, length, take,
}
use gatus_qqbot.Strings.{
  Text, codes, newline, carriage_return, space, valid_string, to_rune, text_eq, is_empty,
  trim_space, fields, join, replace_all, split, cut, to_upper, equal_fold,
}
use gatus_qqbot.Errors.{Error, message, join_errors}

pub record Alert : Type 0 where
  pub state : Text
  pub endpoint_name : Text
  pub endpoint_group : Text
  pub endpoint_url : Text
  pub description : Text
  pub errors : Text

abbrev pub state_required : Error
state_required = message (codes "state is required")

abbrev pub name_required : Error
name_required = message (codes "endpoint_name is required")

abbrev pub fields_invalid : Error
fields_invalid = message (codes "all fields must contain valid UTF-8")

abbrev pub body_invalid : Error
body_invalid = message (codes "text body must contain valid UTF-8")

abbrev pub body_empty : Error
body_empty = message (codes "text body must not be empty")

-- `if test { errs = append(errs, e) }`
abbrev pub append_if : Bool → Error → List Error → List Error
append_if test e errs = if test then errs ++ e ∷ [] else errs

unfoldable pub all_valid : Alert → Bool
all_valid a =
    valid_string a.state
    && valid_string a.endpoint_name
    && valid_string a.endpoint_group
    && valid_string a.endpoint_url
    && valid_string a.description
    && valid_string a.errors

-- `nil` is `none`
unfoldable pub validate : Alert → Option Error
unfolding all_valid
validate a =
    let errs = append_if (is_empty (trim_space a.state)) state_required [] in
    let errs' = append_if (is_empty (trim_space a.endpoint_name)) name_required errs in
    join_errors (append_if (not (all_valid a)) fields_invalid errs')

unfoldable pub log_value : Alert → Text
log_value a =
    let group = trim_space a.endpoint_group in
    if is_empty group
    then trim_space a.endpoint_name
    else group ++ (codes " / " ++ trim_space a.endpoint_name)

unfoldable pub one_line : Text → Text
one_line value = join (space ∷ []) (fields value)

unfoldable pub multi_line : Text → Text
multi_line value = trim_space (
    replace_all (replace_all value (carriage_return ∷ newline ∷ []) (newline ∷ []))
      (carriage_return ∷ []) (newline ∷ []))

unfoldable pub with_prefix : Text → Text → Text
with_prefix value prefix =
    let trimmed = trim_space prefix in
    if is_empty trimmed then value else trimmed ++ (newline ∷ value)

abbrev pub suffix : Text
suffix = codes "..."

-- A `maxLength` below 1 switches the limit off; it is never negative in a valid configuration.
unfoldable pub truncate : Text → ℕ → Text
unfolding to_rune
truncate value max_length =
    if ltb max_length 1 || leb (length value) max_length
    then value
    else if leb max_length (length suffix)
    then take max_length suffix
    else map to_rune (take (max_length - length suffix) value) ++ suffix

-- a line that is left out when its value is empty
abbrev pub labelled : Text → Text → List Text
labelled label value = if is_empty value then [] else (label ++ value) ∷ []

unfoldable pub format_lines : Alert → List Text
format_lines a =
    one_line a.state
    ∷ (codes "Endpoint: " ++ one_line (log_value a))
    ∷ (labelled (codes "URL: ") (one_line a.endpoint_url)
        ++ (labelled (codes "Description: ") (multi_line a.description)
            ++ labelled (codes "Errors: ") (multi_line a.errors)))

unfoldable pub format : Alert → Text → ℕ → Text
format a prefix max_length =
    truncate (with_prefix (join (newline ∷ []) (format_lines a)) prefix) max_length

pub data Formatted : Type 0 where
  text : Text → Formatted
  refused : Error → Formatted

unfoldable pub format_text : Text → Text → ℕ → Formatted
format_text value prefix max_length =
    let body = multi_line value in
    if not (valid_string value)
    then refused body_invalid
    else if is_empty body
    then refused body_empty
    else text (truncate (with_prefix body prefix) max_length)

-- the text between a first `[` and a last `]`
unfoldable pub unbracket_end : Text → Option Text
unbracket_end [] = none
unbracket_end (c ∷ []) = if c == b']' then some [] else none
unbracket_end (c ∷ d ∷ s) = elim (unbracket_end (d ∷ s)) [ none ↦ none | some t ↦ some (c ∷ t) ]

unfoldable pub unbracket : Text → Option Text
unfolding unbracket_end
unbracket [] = none
unbracket (c ∷ s) = if c == b'[' then unbracket_end s else none

unfoldable pub state_of : Text → Text
unfolding unbracket
state_of line =
    let state = trim_space line in
    to_upper (elim (unbracket state) [ none ↦ state | some inner ↦ trim_space inner ])

-- what one round of the loop returns, from the cut line and the rounds that follow
unfoldable pub endpoint_or : Option (Text × Text) → Text → Text
endpoint_or none rest = rest
endpoint_or (some (name, value)) rest =
    if equal_fold (trim_space name) (codes "Endpoint") then one_line value else rest

-- the loop over the lines behind the first
unfoldable pub endpoint_of : List Text → Text
endpoint_of [] = []
endpoint_of (line ∷ lines) = endpoint_or (cut b':' line) (endpoint_of lines)

unfoldable pub metadata_of : List Text → Text × Text
metadata_of [] = ([], [])
metadata_of (first ∷ lines) =
    let state = state_of first in
    if text_eq state (codes "TRIGGERED") || text_eq state (codes "RESOLVED")
    then (endpoint_of lines, state)
    else ([], [])

-- the endpoint and the state
unfoldable pub text_metadata : Text → Text × Text
text_metadata value = metadata_of (split newline (multi_line value))
