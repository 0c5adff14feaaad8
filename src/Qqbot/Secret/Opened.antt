-- ===== src/Qqbot/Secret/Opened.antt =====
-- auth.go: which secrets are opened.
use gatus_qqbot.Base.{
  ℕ, ◌<◌, ◌≤◌, true, false, ◌||◌, not, List, Option, none, some, ◌==◌, ==_iff, ltb, leb, ◌⊎◌, inr,
  ◌≡◌, ◌↔◌, refl, length, take, if_cases, inr-inj, some-inj, not-false, ||_eq_false, ap, sym, subst,
  arith,
}
use gatus_qqbot.Errors.{Error}
use gatus_qqbot.Qqbot.Secret.{Crypto, drop, check_plaintext, open_decoded, decrypt_bind_secret}
use gatus_qqbot.Strings.{Text, is_empty, valid_string}

-- a secret that is not empty and is valid UTF-8
abbrev pub IsText : Text → Type 0
IsText s = (is_empty s ≡ false) × (valid_string s ≡ true)

-- What the bytes open to under a key: a nonce of 12 bytes is in front, and there are more bytes than the
-- nonce and the tag of 16 bytes take, and no more than 4096.
abbrev pub IsOpened : Crypto → List ℕ → List ℕ → Text → Type 0
IsOpened x key bytes s =
    (28 < length bytes)
    × (length bytes ≤ 4096)
    × (x.open_gcm key (take 12 bytes) (drop 12 bytes) ≡ some s)
    × IsText s

check_plaintext_iff :
    (o : Option Text) (s : Text) → (check_plaintext o ≡ inr s) ↔ ((o ≡ some s) × IsText s)
unfolding check_plaintext
check_plaintext_iff none s = (λ h. absurd (cc), λ h. absurd (cc h.0))
check_plaintext_iff (some t) s = (
  if_cases (λ (o : Error ⊎ Text). o ≡ inr s → (some t ≡ some s) × IsText s)
      (is_empty t || not (valid_string t)) (λ b h. absurd (cc))
      (λ b h.
        let (e, v) = ||_eq_false _ _ b in
        (ap some (inr-inj h), subst IsText (inr-inj h) (e, not-false _ v))),
  λ (e, (filled, valid)). let same = some-inj e in rw (same, filled, valid) refl,
)

within_iff :
    (x : Crypto) (key bytes : List ℕ) (s : Text)
    → (open_decoded x key (some bytes) ≡ inr s) ↔ IsOpened x key bytes s
unfolding open_decoded
within_iff x key bytes s =
    let inner = check_plaintext_iff (x.open_gcm key (take 12 bytes) (drop 12 bytes)) s in
    (
      if_cases (λ (o : Error ⊎ Text). o ≡ inr s → IsOpened x key bytes s) (ltb 4096 (length bytes))
          (λ b h. absurd (cc))
          (λ b.
            if_cases (λ (o : Error ⊎ Text). o ≡ inr s → IsOpened x key bytes s)
              (leb (length bytes) 28) (λ b' h. absurd (cc))
              (λ b' h. let (e, t) = inner.0 h in (ground arith, ground arith, e, t))),
      λ (low, high, e, t).
          if_cases (λ (o : Error ⊎ Text). o ≡ inr s) (ltb 4096 (length bytes))
            (λ b. absurd (ground arith))
            (λ b.
              if_cases (λ (o : Error ⊎ Text). o ≡ inr s) (leb (length bytes) 28)
                (λ b'. absurd (ground arith)) (λ b'. inner.1 (e, t))),
    )

open_decoded_iff :
    (x : Crypto) (key : List ℕ) (o : Option (List ℕ)) (s : Text)
    → (open_decoded x key o ≡ inr s)
      ↔ ((bytes : List ℕ) × (o ≡ some bytes) × IsOpened x key bytes s)
open_decoded_iff x key none s = unfold open_decoded in (λ h. absurd (cc), λ (b, h, k). absurd (cc))
open_decoded_iff x key (some bytes) s =
    let w = within_iff x key bytes s in
    (
      λ h. (bytes, refl, w.0 h),
      λ (b, h, k). w.1 (subst (λ bs. IsOpened x key bs s) (sym (some-inj h)) k),
    )

-- what the encrypted secret decodes to, and how it opens
abbrev pub IsSealed : Crypto → Text → List ℕ → Text → Type 0
IsSealed x e key s =
    (length key ≡ 32) × ((bytes : List ℕ) × (x.decode e ≡ some bytes) × IsOpened x key bytes s)

-- A secret is decrypted exactly when the key has 32 bytes, the ciphertext is base64 of more than 28 and of
-- at most 4096 bytes, what follows its first 12 bytes opens under the key and this nonce, and the
-- plaintext is the secret, is not empty and is valid UTF-8.
pub decrypt_bind_secret_iff :
    (x : Crypto) (e : Text) (key : List ℕ) (s : Text)
    → (decrypt_bind_secret x e key ≡ inr s) ↔ IsSealed x e key s
unfolding decrypt_bind_secret
decrypt_bind_secret_iff x e key s =
    let inner = open_decoded_iff x key (x.decode e) s in
    (
      if_cases (λ (o : Error ⊎ Text). o ≡ inr s → IsSealed x e key s) (length key == 32)
          (λ b h. ((==_iff (length key) 32).0 b, inner.0 h)) (λ b h. absurd (cc)),
      λ (l, h).
          if_cases (λ (o : Error ⊎ Text). o ≡ inr s) (length key == 32) (λ b. inner.1 h)
            (λ b. absurd (ground arith)),
    )

-- a secret that is opened under a key of 32 bytes
abbrev pub IsSecret : Text → List ℕ → Type 0
IsSecret s key = (is_empty s ≡ false) × (valid_string s ≡ true) × (length key ≡ 32)

pub decrypt_bind_secret-IsSecret :
    (x : Crypto) (e : Text) (key : List ℕ) (s : Text)
    → decrypt_bind_secret x e key ≡ inr s
    → IsSecret s key
decrypt_bind_secret-IsSecret x e key s h =
    let (l, (_, _, opened)) = (decrypt_bind_secret_iff x e key s).0 h in (opened.3.0, opened.3.1, l)
