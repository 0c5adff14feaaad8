-- ===== src/Qqbot/Secret.antt =====
-- internal/qqbot/auth.go: the decryption of a secret. Base64 and AES-GCM are parameters; a key of 32 bytes
-- makes an AES cipher, and that makes a GCM.
pub mod Opened
mod Tests
use gatus_qqbot.Base.{
  String, ℕ, zero, suc, ◌+◌, Bool, true, false, ◌||◌, not, List, [], ◌∷◌, Option, none, some, ltb,
  leb, ◌==◌, if◌then◌else◌, ◌⊎◌, inl, inr, length, take,
}
use gatus_qqbot.Errors.{Error, message}
use gatus_qqbot.Strings.{Text, codes, is_empty, valid_string}

-- strict base64 decoding; and AES-GCM opening under a key, a nonce and a ciphertext, with the
-- plaintext as a text. The nonce has 12 bytes and the tag 16.
pub record Crypto : Type 0 where
  pub decode : Text → Option (List ℕ)
  pub open_gcm : List ℕ → List ℕ → List ℕ → Option Text

abbrev pub drop : ℕ → List ℕ → List ℕ
drop zero xs = xs
drop (suc n) [] = []
drop (suc n) (x ∷ xs) = drop n xs

abbrev pub failed_with : String → Error ⊎ Text
failed_with s = inl (message (codes s))

unfoldable pub check_plaintext : Option Text → Error ⊎ Text
check_plaintext none = failed_with "AES-GCM authentication failed"
check_plaintext (some t) =
    if is_empty t || not (valid_string t)
    then failed_with "decrypted AppSecret is empty or invalid UTF-8"
    else inr t

unfoldable pub open_decoded : Crypto → List ℕ → Option (List ℕ) → Error ⊎ Text
unfolding check_plaintext
open_decoded x key none = failed_with "invalid base64 ciphertext"
open_decoded x key (some encrypted) =
    if ltb 4096 (length encrypted)
    then failed_with "ciphertext exceeds 4096 bytes"
    else if leb (length encrypted) (12 + 16)
    then failed_with "ciphertext is too short"
    else check_plaintext (x.open_gcm key (take 12 encrypted) (drop 12 encrypted))

unfoldable pub decrypt_bind_secret : Crypto → Text → List ℕ → Error ⊎ Text
unfolding open_decoded
decrypt_bind_secret x encrypted key =
    if length key == 32
    then open_decoded x key (x.decode encrypted)
    else failed_with "encryption key must be exactly 32 bytes"
