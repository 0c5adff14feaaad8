-- ===== src/Cli/Auth/Tests.antt =====
-- root.go: `auth` with a QR code that expires and one that is scanned.
use gatus_qqbot.Base.{none, inr, ◌≡◌, refl, true}
use gatus_qqbot.Cli.Auth.{Output, returned, auth_connector, auth_command}
use gatus_qqbot.Cli.Auth.Stored.{IsAuthorized, auth_command-IsStored}
use gatus_qqbot.Qqbot.Binding.{connect}
use gatus_qqbot.Qqbot.Binding.Tests.{crypto, page, rounds}
use gatus_qqbot.Strings.{Text, codes, is_empty, trim_space, is_space, text_eq, join, valid_string}
use gatus_qqbot.Url.{escape_bytes}

abbrev output : Output
output = record {
  encode_toml = λ id secret. inr (codes "[qq]");
  qr_code = λ url. codes "#";
  first_write = none;
  second_write = none;
}

abbrev path : Text
path = codes "config.toml"

succeeds : (auth_command output path none crypto (inr page) rounds).result ≡ returned none
unfolding auth_command connect is_empty trim_space is_space text_eq join valid_string escape_bytes
succeeds = refl

auth_command-IsStored_example :
    IsAuthorized output path crypto
      (inr page)
      rounds
      (connect none true (auth_connector crypto (inr page)) rounds)
      (auth_command output path none crypto (inr page) rounds).output
auth_command-IsStored_example =
    auth_command-IsStored output path none crypto (inr page) rounds succeeds
