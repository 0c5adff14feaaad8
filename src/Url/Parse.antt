-- ===== src/Url/Parse.antt =====
-- net/url: the pairs that are read from an encoded query, as url.ParseQuery reads them.
use gatus_qqbot.Base.{
  ℕ, false, List, [], ◌∷◌, ◌++◌, map, Option, none, some, if◌then◌else◌, ◌≡◌, ◌≢◌, refl, ap, ◌∙◌,
  All, All-append, All-mono, arith,
}
use gatus_qqbot.Strings.{Text, is_empty, join, split, cut, cons_before}
use gatus_qqbot.Strings.Lines.{split_part, split_last}
use gatus_qqbot.Url.{bytes_of, query_escape, Values, encode_pair, encode_pairs, sort_keys, encode}
use gatus_qqbot.Url.RoundTrip.{unescape, unescape-query_escape, query_escape-IsClean}

-- a key with one value, as bytes
abbrev pub Pair : Type 0
Pair = List ℕ × List ℕ

unfoldable pair_of : Option (List ℕ) → Option (List ℕ) → Option Pair
pair_of (some k) (some v) = some (k, v)
pair_of (some k) none = none
pair_of none v = none

unfoldable read_cut : Text → Option (Text × Text) → Option Pair
unfolding pair_of
read_cut s none = pair_of (unescape s) (some [])
read_cut s (some (k, v)) = pair_of (unescape k) (unescape v)

unfoldable add_pair : Option Pair → Option (List Pair) → Option (List Pair)
add_pair (some p) (some ps) = some (p ∷ ps)
add_pair (some p) none = none
add_pair none ps = none

unfoldable read_parts : List Text → Option (List Pair)
unfolding read_cut add_pair
read_parts [] = some []
read_parts (s ∷ rest) =
    let later = read_parts rest in
    if is_empty s then later else add_pair (read_cut s (cut b'=' s)) later

-- The pairs of a query, in their order; `none` if an escape is broken.
unfoldable pub parse_query : Text → Option (List Pair)
unfolding read_parts
parse_query s = read_parts (split b'&' s)

-- the pairs that values stand for
unfoldable pub pairs_of : Values → List Pair
pairs_of [] = []
pairs_of ((k, vs) ∷ rest) = map (λ v. (bytes_of k, bytes_of v)) vs ++ pairs_of rest

cut_part : (sep : ℕ) (w s : Text) → All (λ c. c ≢ sep) w → cut sep (w ++ (sep ∷ s)) ≡ some (w, s)
unfolding cut cons_before
cut_part sep [] s h = ground arith
cut_part sep (c ∷ w) s h = ground (arith, cut_part sep w s h.1)

NoEquals-query_escape : (t : Text) → All (λ c. c ≢ b'=') (query_escape t)
NoEquals-query_escape t = All-mono _ _ (λ c h. h.1) _ (query_escape-IsClean t)

NoAnd-query_escape : (t : Text) → All (λ c. c ≢ b'&') (query_escape t)
NoAnd-query_escape t = All-mono _ _ (λ c h. h.0) _ (query_escape-IsClean t)

read_cut-encode_pair :
    (k v : Text)
    → read_cut (encode_pair k v) (cut b'=' (encode_pair k v)) ≡ some (bytes_of k, bytes_of v)
unfolding read_cut pair_of
read_cut-encode_pair k v =
    rw
      (
        cut_part b'=' (query_escape k) (query_escape v) (NoEquals-query_escape k),
        unescape-query_escape k,
        unescape-query_escape v,
      )
      refl

is_empty-encode_pair : (w s : Text) → is_empty (w ++ (b'=' ∷ s)) ≡ false
unfolding is_empty
is_empty-encode_pair [] s = refl
is_empty-encode_pair (c ∷ w) s = refl

NoAnd-encode_pair : (k v : Text) → All (λ c. c ≢ b'&') (encode_pair k v)
NoAnd-encode_pair k v =
    All-append _ (query_escape k) _ (NoAnd-query_escape k)
      ((λ e. omega arith), NoAnd-query_escape v)

read_parts_cons :
    (s : Text) (a b : List Text)
    → read_parts a ≡ read_parts b
    → read_parts (s ∷ a) ≡ read_parts (s ∷ b)
unfolding read_parts
read_parts_cons s a b h =
    ap (λ later. if is_empty s then later else add_pair (read_cut s (cut b'=' s)) later) h

read_parts-split-join :
    (ss : List Text)
    → All (All (λ c. c ≢ b'&')) ss
    → read_parts (split b'&' (join (b'&' ∷ []) ss)) ≡ read_parts ss
unfolding join
read_parts-split-join [] h = unfold read_parts split is_empty in refl
read_parts-split-join (s ∷ []) h = ap read_parts (split_last b'&' s h.0)
read_parts-split-join (s ∷ t ∷ ss) h =
    ap read_parts (split_part b'&' s (join (b'&' ∷ []) (t ∷ ss)) h.0)
    ∙ read_parts_cons s _ (t ∷ ss) (read_parts-split-join (t ∷ ss) h.1)

read_parts-map :
    (k : Text) (vs : List Text) (ss : List Text) (ps : List Pair)
    → read_parts ss ≡ some ps
    → read_parts (map (encode_pair k) vs ++ ss)
      ≡ some (map (λ v. (bytes_of k, bytes_of v)) vs ++ ps)
unfolding read_parts add_pair
read_parts-map k [] ss ps h = h
read_parts-map k (v ∷ vs) ss ps h =
    rw
      (
        is_empty-encode_pair (query_escape k) (query_escape v),
        read_cut-encode_pair k v,
        read_parts-map k vs ss ps h,
      )
      refl

read_parts-encode_pairs : (m : Values) → read_parts (encode_pairs m) ≡ some (pairs_of m)
unfolding encode_pairs pairs_of read_parts
read_parts-encode_pairs [] = refl
read_parts-encode_pairs ((k, vs) ∷ m) =
    read_parts-map k vs (encode_pairs m) (pairs_of m) (read_parts-encode_pairs m)

NoAnd-map : (k : Text) (vs : List Text) → All (All (λ c. c ≢ b'&')) (map (encode_pair k) vs)
NoAnd-map k [] = tt
NoAnd-map k (v ∷ vs) = (NoAnd-encode_pair k v, NoAnd-map k vs)

NoAnd-encode_pairs : (m : Values) → All (All (λ c. c ≢ b'&')) (encode_pairs m)
unfolding encode_pairs
NoAnd-encode_pairs [] = tt
NoAnd-encode_pairs ((k, vs) ∷ m) =
    All-append _ (map (encode_pair k) vs) (encode_pairs m) (NoAnd-map k vs) (NoAnd-encode_pairs m)

-- An encoded query is read back as its pairs, in the order of the keys.
pub parse_query-encode : (m : Values) → parse_query (encode m) ≡ some (pairs_of (sort_keys m))
unfolding parse_query encode
parse_query-encode m =
    read_parts-split-join (encode_pairs (sort_keys m)) (NoAnd-encode_pairs (sort_keys m))
    ∙ read_parts-encode_pairs (sort_keys m)
