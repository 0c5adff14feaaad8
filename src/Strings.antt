-- ===== src/Strings.antt =====
-- The Go string functions that the program calls (package strings, unicode, utf8).
-- A Go string is the list of units that ranging over it yields: a unit up to 0x10FFFF is a rune, and
-- `bad_byte b` (0x110000 + b) stands for a byte that is no part of a valid encoding. Every
-- concatenation of the program has an ASCII character at the seam, so units never merge.
pub mod Space
pub mod Words
pub mod Lines
use Prim.Native.Char.{code}
use gatus_qqbot.Base.{
  ℕ, zero, suc, ◌+◌, ◌-◌, String, Bool, true, false, ◌&&◌, ◌||◌, List, [], ◌∷◌, ◌++◌, map, Option,
  none, some, ltb, leb, ◌==◌, if◌then◌else◌, length,
}

abbrev pub Text : Type 0
Text = List ℕ

abbrev pub codes : String → Text
codes String.[] = []
codes (String.◌∷◌ c s) = code c ∷ codes s

abbrev pub newline : ℕ
newline = 10

abbrev pub carriage_return : ℕ
carriage_return = 13

abbrev pub space : ℕ
space = 32

abbrev pub max_rune : ℕ
max_rune = 0x10FFFF

-- the unit of an invalid byte
abbrev pub bad_byte : ℕ → ℕ
bad_byte b = max_rune + 1 + b

-- utf8.ValidString
unfoldable pub valid_string : Text → Bool
valid_string [] = true
valid_string (c ∷ s) = leb c max_rune && valid_string s

-- []rune(s) reads U+FFFD for an invalid byte
unfoldable pub to_rune : ℕ → ℕ
to_rune c = if leb c max_rune then c else 0xFFFD

-- the bytes that a unit takes
unfoldable pub unit_size : ℕ → ℕ
unit_size c =
    if ltb c 0x80
    then 1
    else if ltb c 0x800
    then 2
    else if ltb c 0x10000
    then 3
    else if leb c max_rune
    then 4
    else 1

-- len(s)
unfoldable pub size : Text → ℕ
unfolding unit_size
size [] = 0
size (c ∷ s) = unit_size c + size s

unfoldable pub text_eq : Text → Text → Bool
text_eq [] [] = true
text_eq [] (d ∷ t) = false
text_eq (c ∷ s) [] = false
text_eq (c ∷ s) (d ∷ t) = (c == d) && text_eq s t

unfoldable pub is_empty : Text → Bool
is_empty [] = true
is_empty (c ∷ s) = false

-- unicode.IsSpace
unfoldable pub is_space : ℕ → Bool
is_space c =
    (leb 9 c && leb c 13)
    || (c == space)
    || (c == 0x85)
    || (c == 0xA0)
    || (c == 0x1680)
    || (leb 0x2000 c && leb c 0x200A)
    || (c == 0x2028)
    || (c == 0x2029)
    || (c == 0x202F)
    || (c == 0x205F)
    || (c == 0x3000)

unfoldable pub trim_left : Text → Text
trim_left [] = []
trim_left (c ∷ s) = if is_space c then trim_left s else c ∷ s

unfoldable pub trim_right : Text → Text
trim_right [] = []
trim_right (c ∷ s) = let rest = trim_right s in if is_space c && is_empty rest then [] else c ∷ rest

-- strings.TrimSpace
unfoldable pub trim_space : Text → Text
unfolding trim_left trim_right is_empty
trim_space s = trim_right (trim_left s)

unfoldable pub starts_word : Text → Bool
starts_word [] = false
starts_word (c ∷ s) = if is_space c then false else true

-- `c` before the first word, or a word of its own
unfoldable pub extend_word : ℕ → Bool → List Text → List Text
extend_word c true (w ∷ ws) = (c ∷ w) ∷ ws
extend_word c true [] = (c ∷ []) ∷ []
extend_word c false ws = (c ∷ []) ∷ ws

-- strings.Fields
unfoldable pub fields : Text → List Text
unfolding starts_word extend_word
fields [] = []
fields (c ∷ s) = let ws = fields s in if is_space c then ws else extend_word c (starts_word s) ws

-- strings.Join
unfoldable pub join : Text → List Text → Text
join sep [] = []
join sep (p ∷ []) = p
join sep (p ∷ q ∷ ps) = p ++ (sep ++ join sep (q ∷ ps))

-- strings.HasPrefix
unfoldable pub has_prefix : Text → Text → Bool
has_prefix [] s = true
has_prefix (p ∷ ps) [] = false
has_prefix (p ∷ ps) (c ∷ s) = (p == c) && has_prefix ps s

-- the number is how many units of a match are still to be skipped
unfoldable pub replace_from : Text → Text → ℕ → Text → Text
replace_from old new skip [] = []
replace_from old new (suc k) (c ∷ s) = replace_from old new k s
replace_from old new zero (c ∷ s) =
    let found = new ++ replace_from old new (length old - 1) s in
    let other = c ∷ replace_from old new zero s in if has_prefix old (c ∷ s) then found else other

-- strings.ReplaceAll, for an `old` that is not empty
unfoldable pub replace_all : Text → Text → Text → Text
unfolding replace_from has_prefix
replace_all s old new = replace_from old new zero s

unfoldable pub cons_first : ℕ → List Text → List Text
cons_first c [] = (c ∷ []) ∷ []
cons_first c (p ∷ ps) = (c ∷ p) ∷ ps

-- strings.Split at one character
unfoldable pub split : ℕ → Text → List Text
unfolding cons_first
split sep [] = [] ∷ []
split sep (c ∷ s) = let ps = split sep s in if c == sep then [] ∷ ps else cons_first c ps

unfoldable pub cons_before : ℕ → Option (Text × Text) → Option (Text × Text)
cons_before c none = none
cons_before c (some (b, a)) = some (c ∷ b, a)

-- strings.Cut at one character; `none` if it is not there
unfoldable pub cut : ℕ → Text → Option (Text × Text)
unfolding cons_before
cut sep [] = none
cut sep (c ∷ s) = let rest = cut sep s in if c == sep then some ([], s) else cons_before c rest

-- unicode.ToUpper, where its result is ASCII; other letters are left as they are. U+0131 and
-- U+017F are the letters beyond ASCII whose upper case is an ASCII letter.
unfoldable pub rune_to_upper : ℕ → ℕ
rune_to_upper c =
    if leb b'a' c && leb c b'z'
    then c - 32
    else if c == 0x131
    then b'I'
    else if c == 0x17F
    then b'S'
    else c

-- unicode.ToLower, where its result is ASCII: likewise for U+0130 and the Kelvin sign
unfoldable pub rune_to_lower : ℕ → ℕ
rune_to_lower c =
    if leb b'A' c && leb c b'Z'
    then c + 32
    else if c == 0x130
    then b'i'
    else if c == 0x212A
    then b'k'
    else c

-- strings.ToUpper and strings.ToLower, compared with ASCII texts only
unfoldable pub to_upper : Text → Text
unfolding rune_to_upper
to_upper = map rune_to_upper

unfoldable pub to_lower : Text → Text
unfolding rune_to_lower
to_lower = map rune_to_lower

-- simple folding onto ASCII: U+017F folds with s, the Kelvin sign with k
unfoldable pub rune_fold : ℕ → ℕ
rune_fold c =
    if leb b'A' c && leb c b'Z'
    then c + 32
    else if c == 0x17F
    then b's'
    else if c == 0x212A
    then b'k'
    else c

-- strings.EqualFold with an ASCII text
unfoldable pub equal_fold : Text → Text → Bool
unfolding rune_fold text_eq
equal_fold s t = text_eq (map rune_fold s) (map rune_fold t)
