-- ===== src/Cli/Auth.antt =====
-- internal/cli/root.go: the command `auth`. The encoder of TOML, the QR code of a text and the writes to
-- the output are parameters.
pub mod Stored
mod Tests
use gatus_qqbot.Base.{
  ℕ, zero, suc, ltb, Bool, true, false, List, [], ◌∷◌, ◌++◌, Option, none, some, if◌then◌else◌, ◌⊎◌,
  inl, inr,
}
use gatus_qqbot.Errors.{Error, wrap}
use gatus_qqbot.Qqbot.Binding.{
  QrCredentials, Binding, bound, qr_expired, failed, polling, Connected, Connector, Round, connect,
}
use gatus_qqbot.Qqbot.ConnectUrl.{Page}
use gatus_qqbot.Qqbot.Secret.{Crypto}
use gatus_qqbot.Strings.{Text, codes, newline, is_empty}

-- The encoded section `qq` of an app id and a secret; the QR code of a text; the errors of the two
-- writes of the credentials.
pub record Output : Type 0 where
  pub encode_toml : Text → Text → Error ⊎ Text
  pub qr_code : Text → Text
  pub first_write : Option Error
  pub second_write : Option Error

-- what is given to the output, and the error that is returned
pub record Printed : Type 0 where
  pub texts : List Text
  pub error : Option Error

-- The path is printed without the escapes of %q.
abbrev pub stored_text : Text → Text → Text
stored_text path toml =
    codes "QQ bot binding completed. The file was not modified."
    ++ (newline
        ∷ (codes "Store these credentials in \""
            ++ (path ++ (codes "\":" ++ (newline ∷ newline ∷ toml)))))

abbrev pub user_text : Text → Text
user_text user = newline ∷ (codes "Scanner user_openid: " ++ (user ++ (newline ∷ [])))

unfoldable pub after_user : Text → Text → Option Error → Printed
after_user stored user none = record { texts = stored ∷ user ∷ []; error = none }
after_user stored user (some e) = record {
  texts = stored ∷ user ∷ [];
  error = some (wrap (codes "write QQ user OpenID: ") e);
}

unfoldable pub after_stored : Output → Text → QrCredentials → Option Error → Printed
unfolding after_user
after_stored o stored c (some e) = record {
  texts = stored ∷ [];
  error = some (wrap (codes "write QQ credentials: ") e);
}
after_stored o stored c none =
    if is_empty c.user_open_id
    then record { texts = stored ∷ []; error = none }
    else after_user stored (user_text c.user_open_id) o.second_write

unfoldable pub on_encoded : Output → Text → QrCredentials → Error ⊎ Text → Printed
unfolding after_stored
on_encoded o path c (inl e) = record {
  texts = [];
  error = some (wrap (codes "encode QQ credentials: ") e);
}
on_encoded o path c (inr toml) = after_stored o (stored_text path toml) c o.first_write

unfoldable pub write_credentials : Output → Text → QrCredentials → Printed
unfolding on_encoded
write_credentials o path c = on_encoded o path c (o.encode_toml c.app_id c.app_secret)

-- the lines in front of a QR code, by the number of codes before
unfoldable pub prompt : ℕ → Text
prompt count =
    (if ltb 0 count
      then codes "The previous QR code expired; scan this refreshed code:"
      else codes "Scan this QR code with mobile QQ to bind the bot:")
    ++ (newline ∷ [])

-- the callback, for each URL
unfoldable pub print_urls : Output → ℕ → List Text → List Text
unfolding prompt
print_urls o count [] = []
print_urls o count (url ∷ urls) =
    prompt count
    ∷ o.qr_code url
    ∷ (codes "URL: " ++ (url ++ (newline ∷ [])))
    ∷ print_urls o (suc count) urls

-- `waiting` says that the list of rounds is over and that the command goes on
pub data Result : Type 0 where
  returned : Option Error → Result
  waiting : Result

-- what the command gives to the output, and its result
pub record Bound : Type 0 where
  pub output : List Text
  pub result : Result

unfoldable pub on_connected : Output → Text → List Text → Binding → Bound
unfolding write_credentials
on_connected o path texts (bound c) =
    let p = write_credentials o path c in
    record { output = texts ++ p.texts; result = returned p.error }
on_connected o path texts (failed e) = record {
  output = texts;
  result = returned (some (wrap (codes "bind QQ bot: ") e));
}
on_connected o path texts qr_expired = record { output = texts; result = waiting }
on_connected o path texts polling = record { output = texts; result = waiting }

-- the connector of the command, which names no source
abbrev pub auth_connector : Crypto → Error ⊎ Page → Connector
auth_connector x page = record { crypto = x; page = page; source = [] }

-- the command `auth`, with `ctx.Err()` at its start
unfoldable pub auth_command :
    Output → Text → Option Error → Crypto → Error ⊎ Page → List Round → Bound
unfolding on_connected print_urls
auth_command o path ended x page rs =
    let c = connect ended true (auth_connector x page) rs in
    on_connected o path (print_urls o 0 c.shown) c.result
