-- ===== src/Qqbot/Secret/Tests.antt =====
-- auth.go: a secret of one byte behind a nonce and in front of a tag.
use gatus_qqbot.Base.{ℕ, List, [], ◌∷◌, ◌++◌, some, inr, ◌≡◌, refl, arith}
use gatus_qqbot.Qqbot.Secret.{Crypto, decrypt_bind_secret}
use gatus_qqbot.Qqbot.Secret.Opened.{decrypt_bind_secret_iff}
use gatus_qqbot.Strings.{codes, is_empty, valid_string}

abbrev bytes_29 : List ℕ
bytes_29 =
    1 ∷ 2 ∷ 3 ∷ 4 ∷ 5 ∷ 6 ∷ 7 ∷ 8 ∷ 9 ∷ 10 ∷ 11 ∷ 12 ∷ 13 ∷ 14 ∷ 15 ∷ 16 ∷ 17 ∷ 18 ∷ 19 ∷ 20 ∷ 21
    ∷ 22 ∷ 23 ∷ 24 ∷ 25 ∷ 26 ∷ 27 ∷ 28 ∷ 29 ∷ []

abbrev key : List ℕ
key = bytes_29 ++ 30 ∷ 31 ∷ 32 ∷ []

abbrev crypto : Crypto
crypto = record { decode = (λ s. some bytes_29); open_gcm = (λ k n s. some (codes "s")) }

decrypt_bind_secret_iff_example : decrypt_bind_secret crypto (codes "AA==") key ≡ inr (codes "s")
unfolding is_empty valid_string
decrypt_bind_secret_iff_example =
    (decrypt_bind_secret_iff crypto (codes "AA==") key (codes "s")).1
      (refl, (bytes_29, refl, (omega arith, omega arith, refl, (refl, refl))))
