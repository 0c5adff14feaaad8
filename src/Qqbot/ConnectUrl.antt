-- ===== src/Qqbot/ConnectUrl.antt =====
-- internal/qqbot/auth.go: the URL that a QR code shows. `url.Parse` and `String` of net/url are parameters.
pub mod Shown
use gatus_qqbot.Base.{
  ℕ, Bool, true, false, ◌&&◌, not, List, [], ◌∷◌, ◌++◌, if◌then◌else◌, ◌⊎◌, inl, inr,
}
use gatus_qqbot.Errors.{Error, message}
use gatus_qqbot.Strings.{Text, codes, text_eq}
use gatus_qqbot.Url.{Values, set, encode}

-- A parsed URL: its scheme, its query, and what `String` prints in front of the `?` of a query and
-- behind the query.
pub record Page : Type 0 where
  pub scheme : Text
  pub before : Text
  pub query : Values
  pub after : Text

-- what is encoded for a task and a source
unfoldable pub connect_values : Values → Text → Text → Values
unfolding set
connect_values m task source =
    set (codes "_wv") (codes "2") (set (codes "source") source (set (codes "task_id") task m))

unfoldable pub build_connect_url : Error ⊎ Page → Text → Text → Error ⊎ Text
unfolding connect_values encode
build_connect_url (inl e) task source = inl e
build_connect_url (inr p) task source =
    if not (text_eq p.scheme (codes "https")) && not (text_eq p.scheme (codes "http"))
    then inl (message (codes "connect endpoint must use HTTP or HTTPS"))
    else inr (p.before ++ (b'?' ∷ (encode (connect_values p.query task source) ++ p.after)))
