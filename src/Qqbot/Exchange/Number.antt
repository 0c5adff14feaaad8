-- ===== src/Qqbot/Exchange/Number.antt =====
-- auth.go: `stringOrNumber` at the numbers that are printed in decimal.
use gatus_qqbot.Base.{
  ℕ, zero, suc, ◌+◌, ◌*◌, ◌/◌, ◌%◌, ◌<◌, ◌^◌, true, [], ◌∷◌, some, ltb, ◌⊎◌, inl, inr, ◌≡◌, ◌≢◌,
  ◌↔◌, refl, ap, ◌∙◌, if_cases, Bool-cases, arith,
}
use gatus_qqbot.Config.{digits, decimal}
use gatus_qqbot.Errors.{Error}
use gatus_qqbot.Qqbot.Exchange.{
  json_number, is_digit, parse_digits, in_uint64, parses_uint64, string_or_number,
}
use gatus_qqbot.Strings.{Text}

is_digit-decimal : (d : ℕ) → d < 10 → is_digit (48 + d) ≡ true
unfolding is_digit
is_digit-decimal d h = ground arith

parse_digit :
    (m d : ℕ) (s : Text) → d < 10 → parse_digits m ((48 + d) ∷ s) ≡ parse_digits (m * 10 + d) s
unfolding parse_digits
parse_digit m d s h = rw (is_digit-decimal d h) (ap (λ n. parse_digits n s) (omega arith))

-- What is printed is read back, in front of what follows.
parse_digits-digits :
    (fuel n : ℕ) (acc : Text) → n < fuel → parse_digits 0 (digits fuel n acc) ≡ parse_digits n acc
unfolding digits
parse_digits-digits zero n acc h = absurd (omega arith)
parse_digits-digits (suc fuel) n acc h = elim (Bool-cases (ltb n 10)) [
  | inl e ↦
      rw (e, digits)
        (parse_digit 0 n acc (ground arith) ∙ ap (λ m. parse_digits m acc) (omega arith))
  | inr e ↦
      rw (e, digits)
        (parse_digits-digits fuel (n / 10) ((48 + n % 10) ∷ acc) (ground arith)
          ∙ (parse_digit (n / 10) (n % 10) acc (omega arith)
              ∙ ap (λ m. parse_digits m acc) (omega arith)))
]

digits_filled : (fuel n d : ℕ) (acc : Text) → digits fuel n (d ∷ acc) ≢ []
unfolding digits
digits_filled zero n d acc = λ e. absurd (cc)
digits_filled (suc fuel) n d acc = elim (Bool-cases (ltb n 10)) [
  | inl e ↦ rw (e, digits) (λ q. absurd (cc))
  | inr e ↦ rw (e, digits) (digits_filled fuel (n / 10) (48 + n % 10) (d ∷ acc))
]

decimal_filled : (n : ℕ) → decimal n ≢ []
unfolding digits
decimal_filled n = elim (Bool-cases (ltb n 10)) [
  | inl e ↦ rw (e, digits) (λ q. absurd (cc))
  | inr e ↦ rw (e, digits) (digits_filled n (n / 10) (48 + n % 10) [])
]

parses_uint64-digits :
    (s : Text) (n : ℕ) → parse_digits 0 s ≡ some n → s ≢ [] → parses_uint64 s ≡ ltb n (2 ^ 64)
unfolding parses_uint64
parses_uint64-digits [] n h e = absurd (e refl)
parses_uint64-digits (c ∷ s) n h e = ap in_uint64 h

parses_uint64-decimal : (n : ℕ) → parses_uint64 (decimal n) ≡ ltb n (2 ^ 64)
unfolding parse_digits
parses_uint64-decimal n =
    parses_uint64-digits (decimal n) n (parse_digits-digits (suc n) n [] (omega arith))
      (decimal_filled n)

-- A JSON number that is written as a natural number without sign, point, exponent or leading zeros
-- becomes its own digits exactly when it is below 2 ^ 64.
pub string_or_number-decimal :
    (n : ℕ) → (string_or_number (json_number (decimal n)) ≡ inr (decimal n)) ↔ (n < 2 ^ 64)
unfolding string_or_number
string_or_number-decimal n = (
  if_cases (λ (o : Error ⊎ Text). o ≡ inr (decimal n) → n < 2 ^ 64) (parses_uint64 (decimal n))
      (λ b q. let e = parses_uint64-decimal n in ground arith) (λ b q. absurd (cc)),
  λ h.
      if_cases (λ (o : Error ⊎ Text). o ≡ inr (decimal n)) (parses_uint64 (decimal n)) (λ b. refl)
        (λ b. let e = parses_uint64-decimal n in absurd (ground arith)),
)
