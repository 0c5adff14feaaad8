-- ===== src/Gatus/Length.antt =====
-- alert.go: the length limit of a message, and which texts become one.
use gatus_qqbot.Base.{
  ℕ, ◌-◌, ◌≤◌, min, true, false, List, [], ◌∷◌, map, ◌≡◌, ◌⊎◌, refl, arith, inl, inr, ltb,
  if◌then◌else◌, length, take, length-append, length-take, Bool-cases,
}
use gatus_qqbot.Gatus.{
  Alert, text, refused, suffix, truncate, format, format_text, with_prefix, body_invalid,
  body_empty, multi_line, format_lines,
}
use gatus_qqbot.Strings.{Text, to_rune, valid_string, is_empty, trim_space, newline, join}

length-map : (xs : List ℕ) (f : ℕ → ℕ) → length (map f xs) ≡ length xs
length-map [] f = refl
length-map (x ∷ xs) f = omega (arith, length-map xs f)

-- A limit of at least 1 gives exactly the smaller of the limit and the length, in runes; without
-- a limit the length stays.
pub length-truncate :
    (value : Text) (n : ℕ)
    → length (truncate value n) ≡ (if ltb n 1 then length value else min n (length value))
unfolding truncate
length-truncate value n = ground (
  arith,
  length-append (map to_rune (take (n - 3) value)) suffix,
  length-map (take (n - 3) value) to_rune,
  length-take (n - 3) value,
  length-take n suffix,
)

-- No message made of an alert has more runes than a limit of at least 1.
pub length-format-le : (a : Alert) (prefix : Text) (n : ℕ) → 1 ≤ n → length (format a prefix n) ≤ n
unfolding format
length-format-le a prefix n h =
    ground (arith, length-truncate (with_prefix (join (newline ∷ []) (format_lines a)) prefix) n)

with_prefix-pos : (value prefix : Text) → 1 ≤ length value → 1 ≤ length (with_prefix value prefix)
unfolding with_prefix is_empty
with_prefix-pos value prefix h = ground (arith, length-append (trim_space prefix) (newline ∷ value))

pos_of_nonempty : (s : Text) → is_empty s ≡ false → 1 ≤ length s
unfolding is_empty
pos_of_nonempty [] h = ground arith
pos_of_nonempty (c ∷ s) h = omega arith

-- A text body becomes a message exactly when it is valid UTF-8 and not blank once its line breaks
-- are unified; otherwise the error says which of the two failed, invalid UTF-8 first. The message
-- is not empty, and keeps a limit of at least 1.
pub format_text_cases :
    (value prefix : Text) (n : ℕ)
    → ((valid_string value ≡ false) × (format_text value prefix n ≡ refused body_invalid))
      ⊎ ((valid_string value ≡ true)
          × (is_empty (multi_line value) ≡ true)
          × (format_text value prefix n ≡ refused body_empty))
      ⊎ ((valid_string value ≡ true)
          × (is_empty (multi_line value) ≡ false)
          × ((t : Text) × (format_text value prefix n ≡ text t)
              × (1 ≤ length t)
              × (1 ≤ n → length t ≤ n)))
unfolding format_text
format_text_cases value prefix n = elim (Bool-cases (valid_string value)) [
  | inr invalid ↦ inl (invalid, rw invalid)
  | inl valid ↦ inr (elim (Bool-cases (is_empty (multi_line value))) [
    | inl blank ↦ inl (valid, blank, rw (valid, blank))
    | inr full ↦ inr (
      valid,
      full,
      (truncate (with_prefix (multi_line value) prefix) n, rw (valid, full), pos full, bound),
    )
  ])
]
  where
    pos :
        is_empty (multi_line value) ≡ false
        → 1 ≤ length (truncate (with_prefix (multi_line value) prefix) n)
    pos full = ground (
      arith,
      length-truncate (with_prefix (multi_line value) prefix) n,
      with_prefix-pos (multi_line value) prefix (pos_of_nonempty _ full),
    )

    bound : 1 ≤ n → length (truncate (with_prefix (multi_line value) prefix) n) ≤ n
    bound h = ground (arith, length-truncate (with_prefix (multi_line value) prefix) n)
