-- ===== src/Strings/Words.antt =====
-- strings.Fields and strings.Join with a space: words.
use gatus_qqbot.Base.{
  ℕ, Bool, true, false, List, [], ◌∷◌, ◌++◌, ◌≡◌, ◌≢◌, refl, ap, subst, ◌∙◌, sym, arith, inl, inr,
  Bool-cases, All, All-append,
}
use gatus_qqbot.Strings.{
  Text, newline, carriage_return, space, is_space, is_empty, fields, join, starts_word, extend_word,
  trim_left, trim_right, trim_space,
}
use gatus_qqbot.Strings.Space.{StartsClean, trim_right-append, trim_left_clean}

-- A text with no space in it.
abbrev pub NoSpace : Text → Type 0
NoSpace = All (λ c. is_space c ≡ false)

-- A word: not empty, and no space in it.
abbrev pub IsWord : Text → Type 0
IsWord [] = ⊥
IsWord (c ∷ w) = (is_space c ≡ false) × NoSpace w

extend_word-IsWord :
    (c : ℕ) (b : Bool) (ws : List Text)
    → is_space c ≡ false
    → All IsWord ws
    → All IsWord (extend_word c b ws)
unfolding extend_word
extend_word-IsWord c true [] e h = ((e, tt), tt)
extend_word-IsWord c true ([] ∷ ws) e h = absurd h.0
extend_word-IsWord c true ((d ∷ w) ∷ ws) e h = ((e, h.0), h.1)
extend_word-IsWord c false ws e h = ((e, tt), h)

-- Whatever the text, its fields are words.
pub fields-IsWord : (s : Text) → All IsWord (fields s)
unfolding fields
fields-IsWord [] = tt
fields-IsWord (c ∷ s) = elim (Bool-cases (is_space c)) [
  | inl e ↦ rw e (fields-IsWord s)
  | inr e ↦ rw e (extend_word-IsWord c (starts_word s) (fields s) e (fields-IsWord s))
]

pub fields-space : (s : Text) → fields (space ∷ s) ≡ fields s
unfolding fields is_space
fields-space s = refl

fields_extend :
    (c d : ℕ) (t w : Text) (ws : List Text)
    → is_space c ≡ false
    → is_space d ≡ false
    → fields (d ∷ t) ≡ w ∷ ws
    → fields (c ∷ d ∷ t) ≡ (c ∷ w) ∷ ws
unfolding fields starts_word extend_word
fields_extend c d t w ws p q e = ground arith

fields_single :
    (c : ℕ) (s : Text) → is_space c ≡ false → fields (c ∷ space ∷ s) ≡ (c ∷ []) ∷ fields s
unfolding fields starts_word extend_word is_space
fields_single c s e = rw e

-- A word alone is the one field of its text.
fields_word : (w : Text) → IsWord w → fields w ≡ w ∷ []
fields_word [] h = absurd h
fields_word (c ∷ []) h = unfold fields starts_word extend_word in (rw h.0)
fields_word (c ∷ d ∷ w) h = fields_extend c d w _ _ h.0 h.1.0 (fields_word (d ∷ w) h.1)

fields_word-append : (w s : Text) → IsWord w → fields (w ++ (space ∷ s)) ≡ w ∷ fields s
fields_word-append [] s h = absurd h
fields_word-append (c ∷ []) s h = fields_single c s h.0
fields_word-append (c ∷ d ∷ w) s h =
    fields_extend c d _ _ _ h.0 h.1.0 (fields_word-append (d ∷ w) s h.1)

-- Words joined by a space are found again.
pub fields-join : (ws : List Text) → All IsWord ws → fields (join (space ∷ []) ws) ≡ ws
unfolding join
fields-join [] h = unfold fields in refl
fields-join (w ∷ []) h = fields_word w h.0
fields-join (w ∷ v ∷ ws) h =
    rw (fields_word-append w (join (space ∷ []) (v ∷ ws)) h.0, fields-join (v ∷ ws) h.1)

pub join-All {κ} :
    (P : ℕ → Type κ) (sep : ℕ) (ws : List Text)
    → P sep
    → All (All P) ws
    → All P (join (sep ∷ []) ws)
unfolding join
join-All P sep [] p h = tt
join-All P sep (w ∷ []) p h = h.0
join-All P sep (w ∷ v ∷ ws) p h = All-append P w _ h.0 (p, join-All P sep (v ∷ ws) p h.1)

-- A character other than a line break.
abbrev pub Inline : ℕ → Type 0
Inline c = (c ≢ newline) × (c ≢ carriage_return)

Inline-of_word : (w : Text) → NoSpace w → All Inline w
unfolding is_space
Inline-of_word [] h = tt
Inline-of_word (c ∷ w) h = ((λ e. ground arith, λ e. ground arith), Inline-of_word w h.1)

Inline-of_words : (ws : List Text) → All IsWord ws → All (All Inline) ws
Inline-of_words [] h = tt
Inline-of_words ([] ∷ ws) h = absurd h.0
Inline-of_words ((c ∷ w) ∷ ws) h = (Inline-of_word (c ∷ w) h.0, Inline-of_words ws h.1)

-- Fields joined by a space stand on one line.
pub join-fields-Inline : (s : Text) → All Inline (join (space ∷ []) (fields s))
join-fields-Inline s =
    join-All Inline space (fields s) (omega arith, omega arith)
      (Inline-of_words _ (fields-IsWord s))

-- Words joined by a space have no space at either end.
join-StartsClean : (ws : List Text) → All IsWord ws → StartsClean (join (space ∷ []) ws)
unfolding join
join-StartsClean [] h = tt
join-StartsClean ([] ∷ ws) h = absurd h.0
join-StartsClean ((c ∷ w) ∷ []) h = h.0.0
join-StartsClean ((c ∷ w) ∷ v ∷ ws) h = h.0.0

trim_right_word : (w : Text) → NoSpace w → trim_right w ≡ w
unfolding trim_right is_empty
trim_right_word [] h = refl
trim_right_word (c ∷ w) h = rw (h.0, trim_right_word w h.1)

IsWord-NoSpace : (w : Text) → IsWord w → NoSpace w
IsWord-NoSpace [] h = absurd h
IsWord-NoSpace (c ∷ w) h = h

join-ne-nil : (ws : List Text) → All IsWord ws → ws ≢ [] → join (space ∷ []) ws ≢ []
unfolding join
join-ne-nil [] h n = absurd (n refl)
join-ne-nil ([] ∷ ws) h n = absurd h.0
join-ne-nil ((c ∷ w) ∷ []) h n = λ e. cc
join-ne-nil ((c ∷ w) ∷ v ∷ ws) h n = λ e. cc

trim_right_tail :
    (w rest : Text)
    → rest ≢ []
    → trim_right rest ≡ rest
    → trim_right (w ++ (space ∷ rest)) ≡ w ++ (space ∷ rest)
trim_right_tail w rest n e =
    rw (trim_right-append w (space ∷ rest) (λ z. cc (z, spaced))) (ap (◌++◌ w) spaced)
  where
    spaced : trim_right (space ∷ rest) ≡ space ∷ rest
    spaced = trim_right-append (space ∷ []) rest (λ z. n (sym e ∙ z)) ∙ ap (◌∷◌ space) e

trim_right_step :
    (w v : Text) (ws : List Text)
    → All IsWord (v ∷ ws)
    → trim_right (join (space ∷ []) (v ∷ ws)) ≡ join (space ∷ []) (v ∷ ws)
    → trim_right (join (space ∷ []) (w ∷ v ∷ ws)) ≡ join (space ∷ []) (w ∷ v ∷ ws)
trim_right_step w v ws h e =
    subst (λ u. trim_right u ≡ u) (sym joined)
      (trim_right_tail w _ (join-ne-nil (v ∷ ws) h (λ z. cc)) e)
  where
    joined : join (space ∷ []) (w ∷ v ∷ ws) ≡ w ++ (space ∷ join (space ∷ []) (v ∷ ws))
    joined = unfold join in refl

trim_right-join :
    (ws : List Text) → All IsWord ws → trim_right (join (space ∷ []) ws) ≡ join (space ∷ []) ws
trim_right-join [] h = unfold join trim_right in refl
trim_right-join (w ∷ []) h = unfold join in (trim_right_word w (IsWord-NoSpace w h.0))
trim_right-join (w ∷ v ∷ ws) h = trim_right_step w v ws h.1 (trim_right-join (v ∷ ws) h.1)

-- Fields joined by a space have no space at either end.
pub trim_space-join-fields :
    (s : Text) → trim_space (join (space ∷ []) (fields s)) ≡ join (space ∷ []) (fields s)
unfolding trim_space
trim_space-join-fields s =
    rw (trim_left_clean _ (join-StartsClean _ (fields-IsWord s)))
      (trim_right-join _ (fields-IsWord s))

-- Only a blank text has no fields.
fields-ne-nil : (s : Text) → trim_space s ≢ [] → fields s ≢ []
unfolding trim_space trim_left trim_right fields extend_word
fields-ne-nil [] h = absurd (h refl)
fields-ne-nil (c ∷ s) h = elim (Bool-cases (is_space c)) [
  | inl e ↦ rw e (fields-ne-nil s (rw e at h))
  | inr e ↦ rw e (extended (starts_word s) (fields s))
]
  where
    extended : (b : Bool) (ws : List Text) → extend_word c b ws ≢ []
    extended true [] = λ z. cc
    extended true (w ∷ ws) = λ z. cc
    extended false ws = λ z. cc

pub join-fields-ne-nil : (s : Text) → trim_space s ≢ [] → join (space ∷ []) (fields s) ≢ []
join-fields-ne-nil s h = join-ne-nil _ (fields-IsWord s) (fields-ne-nil s h)

pub join-fields-StartsClean : (s : Text) → StartsClean (join (space ∷ []) (fields s))
join-fields-StartsClean s = join-StartsClean _ (fields-IsWord s)

pub trim_right-join-fields :
    (s : Text) → trim_right (join (space ∷ []) (fields s)) ≡ join (space ∷ []) (fields s)
trim_right-join-fields s = trim_right-join _ (fields-IsWord s)
