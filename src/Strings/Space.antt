-- ===== src/Strings/Space.antt =====
-- strings.TrimSpace: what trimming keeps and removes.
use gatus_qqbot.Base.{
  ℕ, true, false, ◌&&◌, [], ◌∷◌, ◌++◌, ◌≡◌, ◌≢◌, refl, ap, sym, arith, inl, inr, Bool-cases, All,
}
use gatus_qqbot.Strings.{Text, is_space, is_empty, trim_left, trim_right, trim_space}

-- A text that is empty or begins with no space.
abbrev pub StartsClean : Text → Type 0
StartsClean [] = Unit
StartsClean (c ∷ s) = is_space c ≡ false

-- A text of spaces only.
abbrev pub IsBlank : Text → Type 0
IsBlank = All (λ c. is_space c ≡ true)

pub is_empty-eq-nil : (s : Text) → is_empty s ≡ true → s ≡ []
unfolding is_empty
is_empty-eq-nil [] h = refl
is_empty-eq-nil (c ∷ s) h = ground arith

trim_left-StartsClean : (s : Text) → StartsClean (trim_left s)
unfolding trim_left
trim_left-StartsClean [] = tt
trim_left-StartsClean (c ∷ s) = elim (Bool-cases (is_space c)) [
  | inl e ↦ rw e (trim_left-StartsClean s)
  | inr e ↦ rw e e
]

pub trim_left_clean : (s : Text) → StartsClean s → trim_left s ≡ s
unfolding trim_left
trim_left_clean [] h = refl
trim_left_clean (c ∷ s) h = rw h

trim_right-StartsClean : (s : Text) → StartsClean s → StartsClean (trim_right s)
unfolding trim_right
trim_right-StartsClean [] h = tt
trim_right-StartsClean (c ∷ s) h = rw h h

pub trim_right_idem : (s : Text) → trim_right (trim_right s) ≡ trim_right s
unfolding trim_right is_empty
trim_right_idem [] = refl
trim_right_idem (c ∷ s) = ground (arith, trim_right_idem s)

pub trim_space-StartsClean : (s : Text) → StartsClean (trim_space s)
unfolding trim_space
trim_space-StartsClean s = trim_right-StartsClean _ (trim_left-StartsClean s)

pub trim_space_idem : (s : Text) → trim_space (trim_space s) ≡ trim_space s
unfolding trim_space
trim_space_idem s =
    rw (trim_left_clean _ (trim_right-StartsClean _ (trim_left-StartsClean s)))
      (trim_right_idem (trim_left s))

trim_left-All {κ} : (P : ℕ → Type κ) (s : Text) → All P s → All P (trim_left s)
unfolding trim_left
trim_left-All P [] h = tt
trim_left-All P (c ∷ s) h = elim (Bool-cases (is_space c)) [
  | inl e ↦ rw e (trim_left-All P s h.1)
  | inr e ↦ rw e h
]

trim_right-All {κ} : (P : ℕ → Type κ) (s : Text) → All P s → All P (trim_right s)
unfolding trim_right
trim_right-All P [] h = tt
trim_right-All P (c ∷ s) h = elim (Bool-cases (is_space c && is_empty (trim_right s))) [
  | inl e ↦ rw e tt
  | inr e ↦ rw e (h.0, trim_right-All P s h.1)
]

-- Trimming only removes characters.
pub trim_space-All {κ} : (P : ℕ → Type κ) (s : Text) → All P s → All P (trim_space s)
unfolding trim_space
trim_space-All P s h = trim_right-All P _ (trim_left-All P s h)

-- A tail that survives trimming keeps everything in front of it.
pub trim_right-append : (s t : Text) → trim_right t ≢ [] → trim_right (s ++ t) ≡ s ++ trim_right t
unfolding trim_right is_empty
trim_right-append [] t h = refl
trim_right-append (c ∷ s) t h = kept (s ++ trim_right t) (trim_right-append s t h) (nonempty s)
  where
    nonempty : (s : Text) → is_empty (s ++ trim_right t) ≡ false
    nonempty [] = ground arith
    nonempty (d ∷ s) = refl

    kept :
        (u : Text)
        → trim_right (s ++ t) ≡ u
        → is_empty u ≡ false
        → trim_right (c ∷ (s ++ t)) ≡ c ∷ u
    kept u e n = ground arith

-- A tail of spaces vanishes.
pub trim_right-append_blank : (s t : Text) → trim_right t ≡ [] → trim_right (s ++ t) ≡ trim_right s
unfolding trim_right
trim_right-append_blank [] t h = h
trim_right-append_blank (c ∷ s) t h = ground (arith, trim_right-append_blank s t h)

-- So a part that trimming leaves alone stays whole in front of anything.
pub trim_right-append_tight :
    (s t : Text) → trim_right s ≡ s → trim_right (s ++ t) ≡ s ++ trim_right t
trim_right-append_tight s t h = elim (Bool-cases (is_empty (trim_right t))) [
  | inl e ↦ blank (is_empty-eq-nil _ e)
  | inr e ↦ trim_right-append s t (λ n. cc (e, ap is_empty n, nothing))
]
  where
    nothing : is_empty [] ≡ true
    nothing = unfold is_empty in refl

    blank : trim_right t ≡ [] → trim_right (s ++ t) ≡ s ++ trim_right t
    blank n = rw (trim_right-append_blank s t n, h, n) (sym (append_nil s))
      where
        append_nil : (u : Text) → u ++ [] ≡ u
        append_nil [] = refl
        append_nil (c ∷ u) = ap (◌∷◌ c) (append_nil u)
