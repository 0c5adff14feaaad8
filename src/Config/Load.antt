-- ===== src/Config/Load.antt =====
-- config.go: Load, ListenAddress and the four timeouts. What the TOML decoder makes of a file, over
-- the defaults, is a parameter: the configuration, with the keys that it did not decode.
use gatus_qqbot.Base.{ℕ, Bool, List, [], ◌∷◌, ◌++◌, ◌==◌, if◌then◌else◌, ◌⊎◌, inl, inr}
use gatus_qqbot.Config.{ℤ, Config, Parsers, defaults, has_any, positive_duration, int_text}
use gatus_qqbot.Errors.{Error, message, wrap}
use gatus_qqbot.Strings.{Text, codes, join}

abbrev pub Decoder : Type 0
Decoder = Text → Config → Error ⊎ (Config × List Text)

-- The names are printed without the escapes of %q.
unfoldable pub on_decoded : Text → Error ⊎ (Config × List Text) → Error ⊎ Config
on_decoded filename (inl e) = inl (wrap (codes "read config \"" ++ (filename ++ codes "\": ")) e)
on_decoded filename (inr (c, [])) = inr c
on_decoded filename (inr (c, k ∷ ks)) =
    inl (message (codes "unknown config keys: " ++ join (codes ", ") (k ∷ ks)))

unfoldable pub load : Decoder → Text → Error ⊎ Config
unfolding on_decoded
load decode filename = on_decoded filename (decode filename defaults)

abbrev is_colon : ℕ → Bool
is_colon c = c == b':'

-- net.JoinHostPort: a host with a colon is taken for an IPv6 address
unfoldable pub join_host_port : Text → Text → Text
join_host_port host port =
    if has_any is_colon host then (b'[' ∷ host) ++ (codes "]:" ++ port) else host ++ (b':' ∷ port)

unfoldable pub listen_address : Config → Text
unfolding join_host_port
listen_address c = join_host_port c.server.address (int_text c.server.port)

abbrev pub request_timeout : Parsers → Config → Error ⊎ ℤ
request_timeout p c =
    positive_duration (codes "qq.request_timeout") (p.parse_duration c.qq.request_timeout)

abbrev pub delivery_timeout : Parsers → Config → Error ⊎ ℤ
delivery_timeout p c =
    positive_duration (codes "qq.delivery_timeout") (p.parse_duration c.qq.delivery_timeout)

abbrev pub gateway_ready_timeout : Parsers → Config → Error ⊎ ℤ
gateway_ready_timeout p c =
    positive_duration (codes "qq.gateway_ready_timeout")
      (p.parse_duration c.qq.gateway_ready_timeout)

abbrev pub shutdown_timeout : Parsers → Config → Error ⊎ ℤ
shutdown_timeout p c =
    positive_duration (codes "server.shutdown_timeout") (p.parse_duration c.server.shutdown_timeout)
