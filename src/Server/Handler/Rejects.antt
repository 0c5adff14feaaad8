-- ===== src/Server/Handler/Rejects.antt =====
-- handler.go: the first half of the handler, which refuses a request or makes a message of it.
use gatus_qqbot.Base.{
  ℕ, ◌≤◌, true, false, [], ◌++◌, Option, none, some, ◌≡◌, ◌⊎◌, refl, arith, inl, inr, length,
  Bool-cases,
}
use gatus_qqbot.Errors.{Error, sentinel, eof}
use gatus_qqbot.Gatus.{Alert, Formatted, text, refused, format, format_text, validate}
use gatus_qqbot.Gatus.Length.{length-format-le, format_text_cases}
use gatus_qqbot.Gatus.Metadata.{text_eq→eq}
use gatus_qqbot.Server.Handler.{
  Options, Request, Body, Env, MediaType, Decoded, decoded, failed, Prepared, reject, ready,
  authorized, write_decode_error, read_all, method_post, type_json, type_text, supported, prepare,
  prepare_body, prepare_json, prepare_rest, prepare_alert, prepare_text, prepare_formatted,
  ensure_eof,
}
use gatus_qqbot.Strings.{Text, codes, size, text_eq, is_empty}
use gatus_qqbot.Strings.Space.{is_empty-eq-nil}

-- The answers to a request that is refused before delivery.
abbrev pub IsRefusal : ℕ → Type 0
IsRefusal s = (s ≡ 405) ⊎ (s ≡ 401) ⊎ (s ≡ 415) ⊎ (s ≡ 413) ⊎ (s ≡ 400) ⊎ (s ≡ 422)

-- A refusal has such a status; a message keeps a limit of at least 1.
abbrev pub IsSound : Options → Prepared → Type 0
IsSound o (reject r) = IsRefusal r.status
IsSound o (ready t endpoint state media_type) =
    1 ≤ o.message_max_runes → length t ≤ o.message_max_runes

write_decode_error-IsRefusal : (e : Error) → IsRefusal (write_decode_error e).status
unfolding write_decode_error
write_decode_error-IsRefusal e = ground arith

prepare_alert-IsSound :
    (o : Options) (m : Text) (a : Alert) (e : Option Error) → IsSound o (prepare_alert o m a e)
unfolding prepare_alert
prepare_alert-IsSound o m a (some e) = omega arith
prepare_alert-IsSound o m a none = length-format-le a o.message_prefix o.message_max_runes

prepare_rest-IsSound :
    (o : Options) (m : Text) (a : Alert) (e : Option Error) → IsSound o (prepare_rest o m a e)
unfolding prepare_rest
prepare_rest-IsSound o m a (some e) = write_decode_error-IsRefusal e
prepare_rest-IsSound o m a none = prepare_alert-IsSound o m a (validate a)

prepare_json-IsSound :
    (o : Options) (env : Env) (m : Text) (b : Body) (d : Decoded)
    → IsSound o (prepare_json o env m b d)
unfolding prepare_json
prepare_json-IsSound o env m b (failed e) = write_decode_error-IsRefusal e
prepare_json-IsSound o env m b (decoded a) = prepare_rest-IsSound o m a _

prepare_formatted-IsSound :
    (o : Options) (m content : Text)
    → IsSound o
        (prepare_formatted m content (format_text content o.message_prefix o.message_max_runes))
unfolding prepare_formatted
prepare_formatted-IsSound o m content =
    elim (format_text_cases content o.message_prefix o.message_max_runes) [
      | inl (_, e) ↦ rw e (omega arith)
      | inr (inl (_, _, e)) ↦ rw e (omega arith)
      | inr (inr (_, _, (t, e, _, h))) ↦ rw e h
    ]

prepare_text-IsSound :
    (o : Options) (m content : Text) (e : Option Error) → IsSound o (prepare_text o m content e)
unfolding prepare_text
prepare_text-IsSound o m content (some e) = write_decode_error-IsRefusal e
prepare_text-IsSound o m content none = prepare_formatted-IsSound o m content

prepare_body-IsSound :
    (o : Options) (env : Env) (r : Request) (m : Option MediaType)
    → IsSound o (prepare_body o env r m)
unfolding prepare_body
prepare_body-IsSound o env r none = omega arith
prepare_body-IsSound o env r (some m) = elim (Bool-cases (supported m)) [
  | inr e ↦ rw e (omega arith)
  | inl e ↦ elim (Bool-cases (text_eq m.media_type type_json)) [
    | inl j ↦ rw (e, j) (prepare_json-IsSound o env m.media_type r.body _)
    | inr j ↦ rw (e, j) (prepare_text-IsSound o m.media_type r.body.content _)
  ]
]

pub prepare-IsSound : (o : Options) (env : Env) (r : Request) → IsSound o (prepare o env r)
unfolding prepare
prepare-IsSound o env r = elim (Bool-cases (text_eq r.method method_post)) [
  | inr e ↦ rw e (omega arith)
  | inl e ↦ elim (Bool-cases (authorized o r)) [
    | inr a ↦ rw (e, a) (omega arith)
    | inl a ↦ rw (e, a) (prepare_body-IsSound o env r _)
  ]
]

-- The bearer of the token, or anyone where no token is set.
abbrev pub IsAuthorized : Options → Request → Type 0
IsAuthorized o r = (o.auth_token ≡ []) ⊎ (r.authorization ≡ codes "Bearer " ++ o.auth_token)

authorized-IsAuthorized : (o : Options) (r : Request) → authorized o r ≡ true → IsAuthorized o r
unfolding authorized
authorized-IsAuthorized o r h = elim (Bool-cases (is_empty o.auth_token)) [
  | inl e ↦ inl (is_empty-eq-nil _ e)
  | inr e ↦ inr (text_eq→eq _ _ (rw e at h))
]

-- What a request has shown when a message is made of it.
abbrev pub IsAdmitted : Options → Env → Request → Type 0
IsAdmitted o env r =
    (r.method ≡ method_post)
    × IsAuthorized o r
    × ((m : MediaType) × (env.parse_media_type r.content_type ≡ some m) × (supported m ≡ true))

-- What the message `t` of a request is made of: one valid JSON alert and nothing behind it, or the
-- whole of a text body within the size limit.
abbrev pub IsMade : Options → Env → Request → Text → Type 0
IsMade o env r t =
    (m : MediaType) × (env.parse_media_type r.content_type ≡ some m)
    × (((m.media_type ≡ type_json)
          × ((a : Alert) × (env.decode_alert r.body o.max_body_bytes ≡ decoded a)
              × (env.decode_more r.body o.max_body_bytes ≡ some (sentinel eof))
              × (validate a ≡ none)
              × (t ≡ format a o.message_prefix o.message_max_runes)))
        ⊎ ((m.media_type ≡ type_text)
            × (size r.body.content ≤ o.max_body_bytes)
            × (r.body.failure ≡ none)
            × (format_text r.body.content o.message_prefix o.message_max_runes ≡ text t)))

abbrev pub IsMessage : Options → Env → Request → Prepared → Type 0
IsMessage o env r (reject q) = Unit
IsMessage o env r (ready t endpoint state kind) = IsMade o env r t

ensure_eof-none : (e : Option Error) → ensure_eof e ≡ none → e ≡ some (sentinel eof)
unfolding ensure_eof
ensure_eof-none none h = cc
ensure_eof-none (some e) h = ground arith

read_all-none :
    (b : Body) (limit : ℕ) → read_all b limit ≡ none → (size b.content ≤ limit) × (b.failure ≡ none)
unfolding read_all
read_all-none b limit h = ground arith

module _ (o : Options) (env : Env) (r : Request) (m : MediaType)
    (parsed : env.parse_media_type r.content_type ≡ some m) where
  prepare_alert-IsMessage :
      (a : Alert) (invalid : Option Error)
      → m.media_type ≡ type_json
      → env.decode_alert r.body o.max_body_bytes ≡ decoded a
      → env.decode_more r.body o.max_body_bytes ≡ some (sentinel eof)
      → validate a ≡ invalid
      → IsMessage o env r (prepare_alert o m.media_type a invalid)
  unfolding prepare_alert
  prepare_alert-IsMessage a (some e) k d l v = tt
  prepare_alert-IsMessage a none k d l v = (m, parsed, inl (k, (a, d, l, v, refl)))

  prepare_rest-IsMessage :
      (a : Alert) (e : Option Error)
      → m.media_type ≡ type_json
      → env.decode_alert r.body o.max_body_bytes ≡ decoded a
      → ensure_eof (env.decode_more r.body o.max_body_bytes) ≡ e
      → IsMessage o env r (prepare_rest o m.media_type a e)
  unfolding prepare_rest
  prepare_rest-IsMessage a (some e) k d l = tt
  prepare_rest-IsMessage a none k d l =
      prepare_alert-IsMessage a (validate a) k d (ensure_eof-none _ l) refl

  prepare_json-IsMessage :
      (d : Decoded)
      → m.media_type ≡ type_json
      → env.decode_alert r.body o.max_body_bytes ≡ d
      → IsMessage o env r (prepare_json o env m.media_type r.body d)
  unfolding prepare_json
  prepare_json-IsMessage (failed e) k h = tt
  prepare_json-IsMessage (decoded a) k h = prepare_rest-IsMessage a _ k h refl

  prepare_formatted-IsMessage :
      (f : Formatted)
      → m.media_type ≡ type_text
      → size r.body.content ≤ o.max_body_bytes
      → r.body.failure ≡ none
      → format_text r.body.content o.message_prefix o.message_max_runes ≡ f
      → IsMessage o env r (prepare_formatted m.media_type r.body.content f)
  unfolding prepare_formatted
  prepare_formatted-IsMessage (refused e) k h n f = tt
  prepare_formatted-IsMessage (text t) k h n f = (m, parsed, inr (k, h, n, f))

  prepare_text-IsMessage :
      (e : Option Error)
      → m.media_type ≡ type_text
      → read_all r.body o.max_body_bytes ≡ e
      → IsMessage o env r (prepare_text o m.media_type r.body.content e)
  unfolding prepare_text
  prepare_text-IsMessage (some e) k h = tt
  prepare_text-IsMessage none k h =
      let (small, clean) = read_all-none r.body o.max_body_bytes h in
      prepare_formatted-IsMessage _ k small clean refl

supported_text :
    (m : MediaType)
    → supported m ≡ true
    → text_eq m.media_type type_json ≡ false
    → m.media_type ≡ type_text
unfolding supported
supported_text m s j = text_eq→eq _ _ (ground arith)

prepare_body-IsMessage :
    (o : Options) (env : Env) (r : Request) (m : Option MediaType)
    → env.parse_media_type r.content_type ≡ m
    → IsMessage o env r (prepare_body o env r m)
unfolding prepare_body
prepare_body-IsMessage o env r none parsed = tt
prepare_body-IsMessage o env r (some m) parsed = elim (Bool-cases (supported m)) [
  | inr e ↦ rw e tt
  | inl e ↦ elim (Bool-cases (text_eq m.media_type type_json)) [
    | inl j ↦ rw (e, j) (prepare_json-IsMessage o env r m parsed _ (text_eq→eq _ _ j) refl)
    | inr j ↦ rw (e, j) (prepare_text-IsMessage o env r m parsed _ (supported_text m e j) refl)
  ]
]

pub prepare-IsMessage :
    (o : Options) (env : Env) (r : Request) → IsMessage o env r (prepare o env r)
unfolding prepare
prepare-IsMessage o env r = elim (Bool-cases (text_eq r.method method_post)) [
  | inr e ↦ rw e tt
  | inl e ↦ elim (Bool-cases (authorized o r)) [
    | inr a ↦ rw (e, a) tt
    | inl a ↦ rw (e, a) (prepare_body-IsMessage o env r _ refl)
  ]
]

prepare_body_ready :
    (o : Options) (env : Env) (r : Request) (m : Option MediaType) {t endpoint state kind : Text}
    → prepare_body o env r m ≡ ready t endpoint state kind
    → (n : MediaType) × (m ≡ some n) × (supported n ≡ true)
unfolding prepare_body
prepare_body_ready o env r none h = cc
prepare_body_ready o env r (some m) h = (m, refl, ground arith)

pub prepare_ready :
    (o : Options) (env : Env) (r : Request) {t endpoint state kind : Text}
    → prepare o env r ≡ ready t endpoint state kind
    → IsAdmitted o env r
unfolding prepare
prepare_ready o env r {t} {endpoint} {state} {kind} h =
    elim (Bool-cases (text_eq r.method method_post)) [
      | inr e ↦ absurd (ground arith)
      | inl e ↦ elim (Bool-cases (authorized o r)) [
        | inr a ↦ absurd (ground arith)
        | inl a ↦ (
          text_eq→eq _ _ e,
          authorized-IsAuthorized o r a,
          prepare_body_ready o env r (env.parse_media_type r.content_type) {t = t}
              {endpoint = endpoint} {state = state} {kind = kind} (ground arith),
        )
      ]
    ]
