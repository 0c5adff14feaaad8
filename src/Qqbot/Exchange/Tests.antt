-- ===== src/Qqbot/Exchange/Tests.antt =====
-- auth.go at a small response.
use gatus_qqbot.Base.{ℕ, [], ◌∷◌, none, inl, inr, ◌≡◌, refl}
use gatus_qqbot.Config.{digits}
use gatus_qqbot.Errors.{message}
use gatus_qqbot.Qqbot.Exchange.{Http, post_json, string_or_number, json_number}
use gatus_qqbot.Qqbot.Exchange.Whole.{IsExchanged, post_json_iff}
use gatus_qqbot.Strings.{codes}

-- a body of three bytes, at a limit of three
abbrev http : Http ℕ
http = record {
  encode_error = none;
  request_error = none;
  sent = inr (record { status = 200; body = 49 ∷ 50 ∷ 10 ∷ []; body_error = none });
  ended = none;
  decode = λ bytes. inr 12;
  max_response_bytes = 3;
}

decoded : post_json http ≡ inr 12
unfolding post_json
decoded = refl

too_long :
    post_json (record http { max_response_bytes = 2 })
    ≡ inl (message (codes "response body exceeds 2 bytes"))
unfolding post_json digits
too_long = refl

post_json_iff_example : IsExchanged http 12
post_json_iff_example = (post_json_iff http 12).0 decoded

largest_number :
    string_or_number (json_number (codes "18446744073709551615"))
    ≡ inr (codes "18446744073709551615")
unfolding string_or_number
largest_number = refl

no_number :
    string_or_number (json_number (codes "18446744073709551616"))
    ≡ inl (message (codes "must be a string or unsigned integer"))
unfolding string_or_number
no_number = refl
