-- ===== src/Gatus/Metadata.antt =====
-- alert.go: the log fields that TextMetadata reads.
use gatus_qqbot.Base.{
  true, List, [], ◌∷◌, Option, none, some, ◌≡◌, ◌⊎◌, refl, arith, inl, inr, Bool-cases, All,
}
use gatus_qqbot.Gatus.{
  one_line, endpoint_of, endpoint_or, metadata_of, state_of, text_metadata, multi_line,
}
use gatus_qqbot.Strings.{Text, codes, text_eq, cut, equal_fold, trim_space, split, newline}
use gatus_qqbot.Strings.Words.{Inline, join-fields-Inline}

pub text_eq→eq : (s t : Text) → text_eq s t ≡ true → s ≡ t
unfolding text_eq
text_eq→eq [] [] h = refl
text_eq→eq [] (d ∷ t) h = ground arith
text_eq→eq (c ∷ s) [] h = ground arith
text_eq→eq (c ∷ s) (d ∷ t) h = ground (arith, text_eq→eq s t)

pub one_line-Inline : (s : Text) → All Inline (one_line s)
unfolding one_line
one_line-Inline s = join-fields-Inline s

endpoint_or-Inline :
    (found : Option (Text × Text)) (rest : Text)
    → All Inline rest
    → All Inline (endpoint_or found rest)
unfolding endpoint_or
endpoint_or-Inline none rest h = h
endpoint_or-Inline (some (name, value)) rest h =
    elim (Bool-cases (equal_fold (trim_space name) (codes "Endpoint"))) [
      | inl e ↦ rw e (one_line-Inline value)
      | inr e ↦ rw e h
    ]

endpoint_of-Inline : (lines : List Text) → All Inline (endpoint_of lines)
unfolding endpoint_of
endpoint_of-Inline [] = tt
endpoint_of-Inline (line ∷ lines) = endpoint_or-Inline (cut b':' line) _ (endpoint_of-Inline lines)

-- What TextMetadata may report: nothing at all, or one of the two states with an endpoint that
-- holds no line break.
abbrev pub IsMetadata : Text × Text → Type 0
IsMetadata r =
    ((r.0 ≡ []) × (r.1 ≡ []))
    ⊎ (((r.1 ≡ codes "TRIGGERED") ⊎ (r.1 ≡ codes "RESOLVED")) × All Inline r.0)

metadata_of-IsMetadata : (lines : List Text) → IsMetadata (metadata_of lines)
unfolding metadata_of
metadata_of-IsMetadata [] = inl (refl, refl)
metadata_of-IsMetadata (first ∷ lines) =
    elim (Bool-cases (text_eq (state_of first) (codes "TRIGGERED"))) [
      | inl e ↦ rw e (inr (inl (text_eq→eq _ _ e), endpoint_of-Inline lines))
      | inr e ↦ elim (Bool-cases (text_eq (state_of first) (codes "RESOLVED"))) [
        | inl f ↦ rw (e, f) (inr (inr (text_eq→eq _ _ f), endpoint_of-Inline lines))
        | inr f ↦ rw (e, f) (inl (refl, refl))
      ]
    ]

-- TextMetadata reports nothing, or the state TRIGGERED or RESOLVED with an endpoint on one line.
pub text_metadata-IsMetadata : (value : Text) → IsMetadata (text_metadata value)
unfolding text_metadata
text_metadata-IsMetadata value = metadata_of-IsMetadata (split newline (multi_line value))
