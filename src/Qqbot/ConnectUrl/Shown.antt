-- ===== src/Qqbot/ConnectUrl/Shown.antt =====
-- auth.go: what the scanned URL says.
use gatus_qqbot.Base.{◌&&◌, not, [], ◌∷◌, ◌++◌, some, ◌⊎◌, inr, ◌≡◌, refl, ap, ◌∙◌, if_cases}
use gatus_qqbot.Errors.{Error}
use gatus_qqbot.Qqbot.ConnectUrl.{Page, connect_values, build_connect_url}
use gatus_qqbot.Strings.{Text, codes, text_eq}
use gatus_qqbot.Url.{bytes_of, encode, sort_keys}
use gatus_qqbot.Url.Parse.{parse_query, parse_query-encode, pairs_of}

-- The URL is the page with a query that reads as the version 2, the source and the task.
abbrev pub IsConnectUrl : Page → Text → Text → Text → Type 0
IsConnectUrl p task source url =
    (q : Text) × (url ≡ p.before ++ (b'?' ∷ (q ++ p.after)))
    × (parse_query q
        ≡ some (
            (bytes_of (codes "_wv"), bytes_of (codes "2"))
            ∷ (bytes_of (codes "source"), bytes_of source)
            ∷ (bytes_of (codes "task_id"), bytes_of task)
            ∷ []))

sorted_values :
    (task source : Text)
    → sort_keys (connect_values [] task source)
      ≡ (codes "_wv", codes "2" ∷ [])
        ∷ (codes "source", source ∷ [])
        ∷ (codes "task_id", task ∷ [])
        ∷ []
unfolding sort_keys connect_values text_eq
sorted_values task source = refl

connect_values_read :
    (task source : Text)
    → parse_query (encode (connect_values [] task source))
      ≡ some (
          (bytes_of (codes "_wv"), bytes_of (codes "2"))
          ∷ (bytes_of (codes "source"), bytes_of source)
          ∷ (bytes_of (codes "task_id"), bytes_of task)
          ∷ [])
unfolding pairs_of
connect_values_read task source =
    parse_query-encode (connect_values [] task source)
    ∙ ap (λ m. some (pairs_of m)) (sorted_values task source)

pub build_connect_url-IsConnectUrl :
    (p : Page) (task source url : Text)
    → p.query ≡ []
    → build_connect_url (inr p) task source ≡ inr url
    → IsConnectUrl p task source url
unfolding build_connect_url
build_connect_url-IsConnectUrl p task source url e =
    if_cases (λ (o : Error ⊎ Text). o ≡ inr url → IsConnectUrl p task source url)
      (not (text_eq p.scheme (codes "https")) && not (text_eq p.scheme (codes "http")))
      (λ b h. absurd (cc))
      (λ b h.
        (encode (connect_values p.query task source), cc, rw e (connect_values_read task source)))
