-- ===== src/Strings/Lines.antt =====
-- Line breaks: strings.ReplaceAll at \r\n and \r, strings.Split at a newline.
use gatus_qqbot.Base.{
  ℕ, zero, [], ◌∷◌, ◌++◌, ◌≡◌, ◌≢◌, refl, arith, inl, inr, ◌==◌, Bool-cases, All,
}
use gatus_qqbot.Strings.{
  Text, newline, carriage_return, has_prefix, replace_from, replace_all, split, cons_first,
}

-- A text with no carriage return.
abbrev pub NoReturn : Text → Type 0
NoReturn = All (λ c. c ≢ carriage_return)

replace_from-NoReturn :
    (old new s : Text) → NoReturn s → replace_from (carriage_return ∷ old) new zero s ≡ s
unfolding replace_from has_prefix
replace_from-NoReturn old new [] h = refl
replace_from-NoReturn old new (c ∷ s) h = ground (arith, replace_from-NoReturn old new s h.1)

-- Replacing a text that begins with \r does nothing where there is no \r.
pub replace_all-NoReturn :
    (old new s : Text) → NoReturn s → replace_all s (carriage_return ∷ old) new ≡ s
unfolding replace_all
replace_all-NoReturn old new s h = replace_from-NoReturn old new s h

-- Replacing \r leaves none.
pub NoReturn-replace_all :
    (s : Text) → NoReturn (replace_all s (carriage_return ∷ []) (newline ∷ []))
unfolding replace_all replace_from has_prefix
NoReturn-replace_all [] = tt
NoReturn-replace_all (c ∷ s) = elim (Bool-cases (carriage_return == c)) [
  | inl e ↦ rw e (omega arith, NoReturn-replace_all s)
  | inr e ↦ rw e (λ z. ground arith, NoReturn-replace_all s)
]

-- A part in front of a separator is the first one of a split.
pub split_part :
    (sep : ℕ) (w s : Text) → All (λ c. c ≢ sep) w → split sep (w ++ (sep ∷ s)) ≡ w ∷ split sep s
unfolding split cons_first
split_part sep [] s h = ground arith
split_part sep (c ∷ w) s h = ground (arith, split_part sep w s h.1)

pub split_last : (sep : ℕ) (w : Text) → All (λ c. c ≢ sep) w → split sep w ≡ w ∷ []
unfolding split cons_first
split_last sep [] h = refl
split_last sep (c ∷ w) h = ground (arith, split_last sep w h.1)
