-- ===== src/Gatus/Validate.antt =====
-- alert.go: what Validate accepts.
use gatus_qqbot.Base.{true, false, none, ◌≡◌, ◌↔◌, arith}
use gatus_qqbot.Errors.{join_errors}
use gatus_qqbot.Gatus.{Alert, validate}
use gatus_qqbot.Strings.{is_empty, trim_space, valid_string}

-- Validate accepts an alert exactly when the state and the endpoint's name are not blank and every
-- field is valid UTF-8.
pub validate_iff :
    (a : Alert)
    → (validate a ≡ none) ↔ (
        (is_empty (trim_space a.state) ≡ false)
        × (is_empty (trim_space a.endpoint_name) ≡ false)
        × (valid_string a.state ≡ true)
        × (valid_string a.endpoint_name ≡ true)
        × (valid_string a.endpoint_group ≡ true)
        × (valid_string a.endpoint_url ≡ true)
        × (valid_string a.description ≡ true)
        × (valid_string a.errors ≡ true))
unfolding validate join_errors
validate_iff a = (λ h. ground arith, λ h. ground arith)
