-- ===== src/Url/RoundTrip.antt =====
-- net/url: what is read from an encoded query.
use gatus_qqbot.Base.{
  ℕ, ◌+◌, ◌-◌, ◌*◌, ◌/◌, ◌%◌, ◌<◌, true, false, ◌&&◌, List, [], ◌∷◌, ◌++◌, Option, none, some, leb,
  ◌==◌, if◌then◌else◌, ◌≡◌, ◌≢◌, refl, ap, ◌∙◌, All, All-append, arith, if_cases, ==_iff,
}
use gatus_qqbot.Strings.{Text}
use gatus_qqbot.Url.{
  unit_bytes, bytes_of, is_unreserved, upper_hex, escape_byte, escape_bytes, query_escape,
}

-- Where a reader of escapes is: outside of one, behind its `%`, or behind its first digit.
pub data Place : Type 0 where
  plain : Place
  percent : Place
  high : ℕ → Place

-- a hexadecimal digit
unfoldable hex_value : ℕ → Option ℕ
hex_value c =
    if leb 48 c && leb c 57
    then some (c - 48)
    else if leb 65 c && leb c 70
    then some (c - 55)
    else if leb 97 c && leb c 102
    then some (c - 87)
    else none

-- how one character is read: the bytes it gives, and where the reader is behind it
unfoldable read : Place → ℕ → Option (List ℕ × Place)
unfolding hex_value
read plain c =
    if c == b'%'
    then some ([], percent)
    else if c == b'+'
    then some (b' ' ∷ [], plain)
    else some (c ∷ [], plain)
read percent c = elim (hex_value c) [ none ↦ none | some n ↦ some ([], high n) ]
read (high n) c = elim (hex_value c) [ none ↦ none | some m ↦ some ((n * 16 + m) ∷ [], plain) ]

unfoldable prepend : List ℕ → Option (List ℕ) → Option (List ℕ)
prepend bs none = none
prepend bs (some t) = some (bs ++ t)

unfoldable unescape_from : Place → Text → Option (List ℕ)
unfolding read prepend
unescape_from plain [] = some []
unescape_from percent [] = none
unescape_from (high n) [] = none
unescape_from p (c ∷ s) = elim (read p c) [
  | none ↦ none
  | some (out, q) ↦ prepend out (unescape_from q s)
]

hex_value-upper_hex : (d : ℕ) → d < 16 → hex_value (upper_hex d) ≡ some d
unfolding hex_value upper_hex
hex_value-upper_hex d h = ground arith

unreserved-plain : (b : ℕ) → is_unreserved b ≡ true → ((b == b'%') ≡ false) × ((b == b'+') ≡ false)
unfolding is_unreserved
unreserved-plain b h = (ground arith, ground arith)

read_unreserved : (b : ℕ) → is_unreserved b ≡ true → read plain b ≡ some (b ∷ [], plain)
unfolding read
read_unreserved b h = let (p, q) = unreserved-plain b h in rw (p, q) refl

prepend-nil : (o : Option (List ℕ)) → prepend [] o ≡ o
unfolding prepend
prepend-nil none = refl
prepend-nil (some t) = refl

abbrev IsRead : ℕ → Text → Text → Type 0
IsRead b s t = unescape_from plain (t ++ s) ≡ prepend (b ∷ []) (unescape_from plain s)

unescape_unreserved : (b : ℕ) (s : Text) → is_unreserved b ≡ true → IsRead b s (b ∷ [])
unfolding unescape_from
unescape_unreserved b s h = rw (read_unreserved b h, unescape_from) refl

unescape_space : (b : ℕ) (s : Text) → b ≡ 32 → IsRead b s (43 ∷ [])
unfolding unescape_from read
unescape_space b s h = rw h refl

unescape_hex :
    (b : ℕ) (s : Text) → b < 256 → IsRead b s (37 ∷ upper_hex (b / 16) ∷ upper_hex (b % 16) ∷ [])
unfolding unescape_from read prepend
unescape_hex b s h =
    rw (hex_value-upper_hex (b / 16) (omega arith), hex_value-upper_hex (b % 16) (omega arith))
      (prepend-nil _
        ∙ prepend-nil _
        ∙ ap (λ n. prepend (n ∷ []) (unescape_from plain s)) (omega arith))

unescape-escape_byte : (b : ℕ) (s : Text) → b < 256 → IsRead b s (escape_byte b)
unfolding escape_byte
unescape-escape_byte b s h = if_cases (IsRead b s) (is_unreserved b) (unescape_unreserved b s) (λ u.
    if_cases (IsRead b s) (b == 32) (λ e. unescape_space b s ((==_iff b 32).0 e))
      (λ e. unescape_hex b s h))

unescape-escape_bytes :
    (bs : List ℕ) → All (λ b. b < 256) bs → unescape_from plain (escape_bytes bs) ≡ some bs
unfolding escape_bytes unescape_from prepend
unescape-escape_bytes [] h = refl
unescape-escape_bytes (b ∷ bs) (h, hs) =
    unescape-escape_byte b (escape_bytes bs) h ∙ ap (prepend (b ∷ [])) (unescape-escape_bytes bs hs)

unit_bytes_bounded : (c : ℕ) → All (λ b. b < 256) (unit_bytes c)
unfolding unit_bytes
unit_bytes_bounded c = grind arith

bytes_of_bounded : (t : Text) → All (λ b. b < 256) (bytes_of t)
unfolding bytes_of
bytes_of_bounded [] = tt
bytes_of_bounded (c ∷ t) =
    All-append (λ b. b < 256) (unit_bytes c) (bytes_of t) (unit_bytes_bounded c)
      (bytes_of_bounded t)

-- no character that a query is split at
abbrev pub IsClean : Text → Type 0
IsClean = All (λ c. (c ≢ b'&') × (c ≢ b'='))

upper_hex-IsClean : (d : ℕ) → d < 16 → (upper_hex d ≢ b'&') × (upper_hex d ≢ b'=')
unfolding upper_hex
upper_hex-IsClean d h = ground arith

escape_byte-IsClean : (b : ℕ) → b < 256 → IsClean (escape_byte b)
unfolding escape_byte is_unreserved
escape_byte-IsClean b h =
    if_cases IsClean (is_unreserved b) (λ u. ((λ e. ground arith, λ e. ground arith), tt))
      (λ u.
        if_cases IsClean (b == 32) (λ e. ((λ e. omega arith, λ e. omega arith), tt))
          (λ e. (
            (λ e. omega arith, λ e. omega arith),
            (
              upper_hex-IsClean (b / 16) (omega arith),
              (upper_hex-IsClean (b % 16) (omega arith), tt),
            ),
          )))

escape_bytes-IsClean : (bs : List ℕ) → All (λ b. b < 256) bs → IsClean (escape_bytes bs)
unfolding escape_bytes
escape_bytes-IsClean [] h = tt
escape_bytes-IsClean (b ∷ bs) (h, hs) =
    All-append (λ c. (c ≢ b'&') × (c ≢ b'=')) (escape_byte b) (escape_bytes bs)
      (escape_byte-IsClean b h) (escape_bytes-IsClean bs hs)

pub query_escape-IsClean : (t : Text) → IsClean (query_escape t)
query_escape-IsClean t = escape_bytes-IsClean (bytes_of t) (bytes_of_bounded t)

-- url.QueryUnescape, as bytes
unfoldable pub unescape : Text → Option (List ℕ)
unfolding unescape_from
unescape t = unescape_from plain t

-- What is escaped is read back as the same bytes.
pub unescape-query_escape : (t : Text) → unescape (query_escape t) ≡ some (bytes_of t)
unfolding unescape
unescape-query_escape t = unescape-escape_bytes (bytes_of t) (bytes_of_bounded t)
