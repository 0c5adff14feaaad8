-- ===== src/Cli/Auth/Stored.antt =====
-- root.go: the credentials that `auth` prints.
use gatus_qqbot.Base.{
  ℕ, suc, ltb, arith, true, false, List, [], ◌∷◌, ◌++◌, Option, none, some, ◌⊎◌, inl, inr, ◌≡◌, ◌≢◌,
  refl,
}
use gatus_qqbot.Errors.{Error}
use gatus_qqbot.Qqbot.Binding.{
  QrCredentials, Binding, bound, qr_expired, failed, polling, Connected, Round, connect,
}
use gatus_qqbot.Qqbot.Binding.Bound.{IsBoundAt, connect-IsBoundAt}
use gatus_qqbot.Qqbot.ConnectUrl.{Page}
use gatus_qqbot.Qqbot.Secret.{Crypto}
use gatus_qqbot.Strings.{Text, codes, newline, is_empty}
use gatus_qqbot.Cli.Auth.{
  Output, stored_text, user_text, after_user, after_stored, on_encoded, write_credentials, prompt,
  print_urls, returned, on_connected, auth_connector, auth_command,
}

-- The text that shows credentials: it names the file and ends with their encoded section.
abbrev pub IsShown : Text → Text → Text → Type 0
IsShown path toml t =
    t
    ≡ codes "QQ bot binding completed. The file was not modified."
      ++ (newline
          ∷ (codes "Store these credentials in \""
              ++ (path ++ (codes "\":" ++ (newline ∷ newline ∷ toml)))))

-- the texts behind the credentials: one that names the user, if there is one
abbrev pub NamesUser : Text → List Text → Type 0
NamesUser user texts =
    ((user ≡ []) × (texts ≡ []))
    ⊎ ((user ≢ [])
        × (texts ≡ (newline ∷ (codes "Scanner user_openid: " ++ (user ++ (newline ∷ [])))) ∷ []))

-- the texts of credentials: the encoded section, and behind it the user if there is one
abbrev pub IsStored : Output → Text → QrCredentials → List Text → Type 0
IsStored o path c texts =
    (toml : Text) × (stored : Text) × (users : List Text) × (o.encode_toml c.app_id c.app_secret
      ≡ inr toml)
    × IsShown path toml stored
    × NamesUser c.user_open_id users
    × (texts ≡ stored ∷ users)

-- the texts that show a QR code: a line in front of it, the code, and its URL
abbrev pub code_texts : Output → Text → Text → List Text
code_texts o line url =
    (line ++ (newline ∷ [])) ∷ o.qr_code url ∷ (codes "URL: " ++ (url ++ (newline ∷ []))) ∷ []

-- the texts of the codes behind the first
pub data AreRefreshed (o : Output) : List Text → List Text → Type 0 where
  no_code : AreRefreshed o [] []
  next_code :
      (url : Text) (urls texts : List Text)
      → AreRefreshed o urls texts
      → AreRefreshed o (url ∷ urls) (
          code_texts o (codes "The previous QR code expired; scan this refreshed code:") url
          ++ texts)

-- The texts show the codes of these URLs, each once and in order.
abbrev pub AreCodes : Output → List Text → List Text → Type 0
AreCodes o [] shown = shown ≡ []
AreCodes o (url ∷ urls) shown =
    (texts : List Text) × AreRefreshed o urls texts
    × (shown
        ≡ code_texts o (codes "Scan this QR code with mobile QQ to bind the bot:") url ++ texts)

ltb-zero-suc : (n : ℕ) → ltb 0 (suc n) ≡ true
ltb-zero-suc n = ground arith

print_urls-AreRefreshed :
    (o : Output) (count : ℕ) (urls : List Text)
    → AreRefreshed o urls (print_urls o (suc count) urls)
unfolding print_urls prompt
print_urls-AreRefreshed o count [] = no_code
print_urls-AreRefreshed o count (url ∷ urls) = rw (ltb-zero-suc count) (
    next_code url urls (print_urls o (suc (suc count)) urls)
      (print_urls-AreRefreshed o (suc count) urls))

print_urls-AreCodes : (o : Output) (urls : List Text) → AreCodes o urls (print_urls o 0 urls)
unfolding print_urls prompt
print_urls-AreCodes o [] = refl
print_urls-AreCodes o (url ∷ urls) = (print_urls o 1 urls, print_urls-AreRefreshed o 0 urls, refl)

is_empty_cases : (s : Text) → ((is_empty s ≡ true) × (s ≡ [])) ⊎ ((is_empty s ≡ false) × (s ≢ []))
unfolding is_empty
is_empty_cases [] = inl (refl, refl)
is_empty_cases (x ∷ s) = inr (refl, λ h. cc)

after_user-texts :
    (stored user : Text) (w : Option Error) → (after_user stored user w).texts ≡ stored ∷ user ∷ []
unfolding after_user
after_user-texts stored user none = refl
after_user-texts stored user (some e) = refl

after_stored-texts :
    (o : Output) (stored : Text) (c : QrCredentials) (w : Option Error)
    → (after_stored o stored c w).error ≡ none
    → (users : List Text) × NamesUser c.user_open_id users
      × ((after_stored o stored c w).texts ≡ stored ∷ users)
unfolding after_stored
after_stored-texts o stored c (some e) h = absurd (cc)
after_stored-texts o stored c none h = elim (is_empty_cases c.user_open_id) [
  | inl (e, q) ↦ ([], inl (q, refl), rw e refl)
  | inr (e, q) ↦ (
    user_text c.user_open_id ∷ [],
    inr (q, refl),
    rw e (after_user-texts stored (user_text c.user_open_id) o.second_write),
  )
]

on_encoded-IsStored :
    (o : Output) (path : Text) (c : QrCredentials) (e : Error ⊎ Text)
    → o.encode_toml c.app_id c.app_secret ≡ e
    → (on_encoded o path c e).error ≡ none
    → IsStored o path c (on_encoded o path c e).texts
unfolding on_encoded
on_encoded-IsStored o path c (inl x) q h = absurd (cc)
on_encoded-IsStored o path c (inr toml) q h =
    let (users, n, t) = after_stored-texts o (stored_text path toml) c o.first_write h in
    (toml, stored_text path toml, users, q, refl, n, t)

write_credentials-IsStored :
    (o : Output) (path : Text) (c : QrCredentials)
    → (write_credentials o path c).error ≡ none
    → IsStored o path c (write_credentials o path c).texts
unfolding write_credentials
write_credentials-IsStored o path c h =
    on_encoded-IsStored o path c (o.encode_toml c.app_id c.app_secret) refl h

-- what is printed in front of the credentials, and the credentials of the binding
abbrev pub IsDone : Output → Text → Connected → List Text → Type 0
IsDone o path d output =
    (c : QrCredentials) × (texts : List Text) × (d.result ≡ bound c)
    × IsStored o path c texts
    × (output ≡ print_urls o 0 d.shown ++ texts)

returned-inj : {a b : Option Error} → returned a ≡ returned b → a ≡ b
returned-inj h = cc

on_connected-IsDone :
    (o : Output) (path : Text) (d : Connected) (b : Binding)
    → d.result ≡ b
    → (on_connected o path (print_urls o 0 d.shown) b).result ≡ returned none
    → IsDone o path d (on_connected o path (print_urls o 0 d.shown) b).output
unfolding on_connected
on_connected-IsDone o path d (bound c) e h = (
  c,
  (write_credentials o path c).texts,
  e,
  write_credentials-IsStored o path c (returned-inj h),
  refl,
)
on_connected-IsDone o path d (failed x) e h = absurd (cc)
on_connected-IsDone o path d qr_expired e h = absurd (cc)
on_connected-IsDone o path d polling e h = absurd (cc)

-- credentials of a completed poll, and the output with them behind the QR codes
abbrev pub IsAuthorized :
    Output → Text → Crypto → Error ⊎ Page → List Round → Connected → List Text → Type 0
IsAuthorized o path x page rs d output =
    (c : QrCredentials) × (shown : List Text) × (texts : List Text) × IsBoundAt
      (auth_connector x page) rs c d
    × AreCodes o d.shown shown
    × IsStored o path c texts
    × (output ≡ shown ++ texts)

-- When `auth` returns without an error, a poll for its last QR code has completed the binding. What
-- it printed is, for each code shown and in this order, a line (another one for the first code than
-- for those behind it), the code and its URL; then a text that names the file and ends with the
-- encoded app id and secret of that binding; and then, if the poll named a user, a text with the
-- user, and nothing else.
pub auth_command-IsStored :
    (o : Output) (path : Text) (ended : Option Error) (x : Crypto) (page : Error ⊎ Page)
    → (rs : List Round) → (auth_command o path ended x page rs).result ≡ returned none
    → IsAuthorized o path x page rs
        (connect ended true (auth_connector x page) rs)
        (auth_command o path ended x page rs).output
unfolding auth_command
auth_command-IsStored o path ended x page rs h =
    let k = auth_connector x page in
    let d = connect ended true k rs in
    let (c, texts, b, stored, e) = on_connected-IsDone o path d d.result refl h in
    (
      c,
      print_urls o 0 d.shown,
      texts,
      connect-IsBoundAt k c ended true rs b,
      print_urls-AreCodes o d.shown,
      stored,
      e,
    )
