-- ===== src/Url.antt =====
-- The functions of Go's package net/url that the program calls: Values, its Set and Encode, and
-- QueryEscape, over the bytes of the UTF-8 encoding.
pub mod RoundTrip
pub mod Parse
use gatus_qqbot.Base.{
  ℕ, zero, suc, ◌+◌, ◌-◌, ◌/◌, ◌%◌, Bool, true, false, ◌&&◌, ◌||◌, List, [], ◌∷◌, ◌++◌, Option,
  none, some, ltb, leb, ◌==◌, if◌then◌else◌, map,
}
use gatus_qqbot.Strings.{Text, codes, max_rune, text_eq, join}

-- the bytes of a unit
unfoldable pub unit_bytes : ℕ → List ℕ
unit_bytes c =
    if ltb c 0x80
    then c ∷ []
    else if ltb c 0x800
    then (0xC0 + c / 64) ∷ (0x80 + c % 64) ∷ []
    else if ltb c 0x10000
    then (0xE0 + c / 4096) ∷ (0x80 + c / 64 % 64) ∷ (0x80 + c % 64) ∷ []
    else if leb c max_rune
    then (0xF0 + c / 262144) ∷ (0x80 + c / 4096 % 64) ∷ (0x80 + c / 64 % 64) ∷ (0x80 + c % 64) ∷ []
    else ((c - 0x110000) % 256) ∷ []

-- []byte(s)
unfoldable pub bytes_of : Text → List ℕ
unfolding unit_bytes
bytes_of [] = []
bytes_of (c ∷ s) = unit_bytes c ++ bytes_of s

unfoldable pub is_unreserved : ℕ → Bool
is_unreserved b =
    (leb 48 b && leb b 57)
    || (leb 65 b && leb b 90)
    || (leb 97 b && leb b 122)
    || (b == 45)
    || (b == 46)
    || (b == 95)
    || (b == 126)

unfoldable pub upper_hex : ℕ → ℕ
upper_hex d = if ltb d 10 then 48 + d else 55 + d

unfoldable pub escape_byte : ℕ → Text
unfolding is_unreserved upper_hex
escape_byte b =
    if is_unreserved b
    then b ∷ []
    else if b == 32
    then 43 ∷ []
    else 37 ∷ upper_hex (b / 16) ∷ upper_hex (b % 16) ∷ []

unfoldable pub escape_bytes : List ℕ → Text
unfolding escape_byte
escape_bytes [] = []
escape_bytes (b ∷ s) = escape_byte b ++ escape_bytes s

-- url.QueryEscape
abbrev pub query_escape : Text → Text
query_escape s = escape_bytes (bytes_of s)

-- url.Values, a value after the other for each key
abbrev pub Values : Type 0
Values = List (Text × List Text)

unfoldable pub remove_key : Text → Values → Values
remove_key k [] = []
remove_key k ((k', vs) ∷ rest) =
    let others = remove_key k rest in if text_eq k k' then others else (k', vs) ∷ others

-- Values.Set
unfoldable pub set : Text → Text → Values → Values
unfolding remove_key
set k v m = (k, v ∷ []) ∷ remove_key k m

-- the order of Go's strings, byte by byte
unfoldable pub bytes_le : List ℕ → List ℕ → Bool
bytes_le [] t = true
bytes_le (b ∷ s) [] = false
bytes_le (b ∷ s) (c ∷ t) = ltb b c || ((b == c) && bytes_le s t)

unfoldable pub insert_key : Text × List Text → Values → Values
unfolding bytes_le bytes_of
insert_key kv [] = kv ∷ []
insert_key kv (x ∷ rest) =
    let later = insert_key kv rest in
    if bytes_le (bytes_of kv.0) (bytes_of x.0) then kv ∷ (x ∷ rest) else x ∷ later

unfoldable pub sort_keys : Values → Values
unfolding insert_key
sort_keys [] = []
sort_keys (x ∷ rest) = insert_key x (sort_keys rest)

abbrev pub encode_pair : Text → Text → Text
encode_pair k v = query_escape k ++ (b'=' ∷ query_escape v)

unfoldable pub encode_pairs : Values → List Text
encode_pairs [] = []
encode_pairs ((k, vs) ∷ rest) = map (encode_pair k) vs ++ encode_pairs rest

-- Values.Encode
unfoldable pub encode : Values → Text
unfolding sort_keys encode_pairs
encode m = join (b'&' ∷ []) (encode_pairs (sort_keys m))
