-- ===== src/Qqbot/Client.antt =====
-- internal/qqbot/api.go: the construction of the client of the QQ API. The domains of BotGo are
-- variables of that library, which `configureSDK` sets once.
use gatus_qqbot.Base.{Bool, true, List, [], ◌∷◌, Option, none, some, if◌then◌else◌, ◌⊎◌, inl, inr}
use gatus_qqbot.Config.{ℤ}
use gatus_qqbot.Errors.{Error, wrap}
use gatus_qqbot.Strings.{Text, codes}

abbrev pub current_api_domain : Text
current_api_domain = codes "https://api.bot.qq.com"

-- the library's variables, and whether `configureSDK` has run
pub record Sdk : Type 0 where
  pub api_domain : Text
  pub token_domain : Text
  pub configured : Bool

pub record Client : Type 0 where
  pub app_id : Text
  pub timeout : ℤ

-- `ctx.Err()` at the start, the error of the first token, and `ctx.Err()` behind it
pub record Authentication : Type 0 where
  pub before : Option Error
  pub token : Option Error
  pub after : Option Error

-- a request of a token, by the domain that it goes to and the credentials that it carries
pub record TokenRequest : Type 0 where
  pub domain : Text
  pub app_id : Text
  pub app_secret : Text

pub record Made : Type 0 where
  pub sdk : Sdk
  pub requests : List TokenRequest
  pub result : Error ⊎ Client

unfoldable pub configure_sdk : Sdk → Sdk
configure_sdk s = if s.configured then s else record {
  api_domain = current_api_domain;
  token_domain = current_api_domain;
  configured = true;
}

unfoldable pub after_token : Option Error → Option Error → Client → Error ⊎ Client
after_token (some e) after c = inl (wrap (codes "authenticate QQ bot: ") e)
after_token none (some e) c = inl e
after_token none none c = inr c

unfoldable pub authenticate : Sdk → Authentication → Text → Text → ℤ → Made
unfolding after_token
authenticate s a app_id app_secret timeout = record {
  sdk = s;
  requests = record { domain = s.token_domain; app_id = app_id; app_secret = app_secret } ∷ [];
  result = after_token a.token a.after (record { app_id = app_id; timeout = timeout });
}

unfoldable pub from_context : Sdk → Authentication → Text → Text → ℤ → Option Error → Made
unfolding authenticate configure_sdk
from_context s a app_id app_secret timeout (some e) = record {
  sdk = s;
  requests = [];
  result = inl e;
}
from_context s a app_id app_secret timeout none =
    authenticate (configure_sdk s) a app_id app_secret timeout

-- NewClient
unfoldable pub new_client : Sdk → Authentication → Text → Text → ℤ → Made
unfolding from_context
new_client s a app_id app_secret timeout = from_context s a app_id app_secret timeout a.before
