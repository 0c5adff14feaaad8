-- ===== src/Lib.antt =====
-- gatus-qqbot receives alerts of the Gatus monitor over HTTP and forwards them to QQ.
--
-- The HTTP handler (internal/server/handler.go) checks a request and makes a message of it with
-- internal/gatus/alert.go. It hands the message to the sender (internal/qqbot/sender.go), which
-- queues concurrent alerts and delivers each to every configured target.
-- The gateway (internal/qqbot/gateway.go) keeps the event connection open that QQ wants to see; the
-- session manager opens its sessions and tells it of each start and failure.
-- The command `serve` (internal/cli/root.go) loads and checks the configuration and runs the gateway and
-- the HTTP server together (internal/cli/services.go). The command `auth` binds a bot by a QR code
-- (internal/qqbot/auth.go) and prints its credentials.
--
-- Base, Base/Tests and Base/Lists hold shared names, tests on numbers and lists.
-- Strings models the functions of Go's package strings that the program calls, on texts as lists
-- of runes and invalid bytes; Strings/Space, Strings/Words and Strings/Lines hold their laws.
-- Url models the escaping of Go's package net/url; Url/RoundTrip and Url/Parse read a query back.
-- Errors models Go's error values: sentinels (internal/delivery/errors.go), texts, wrapping, joins.
-- Gatus models internal/gatus/alert.go, a function for each of the source's.
-- Server/Handler models internal/server/handler.go: `prepare` is the first half of the handler and
-- `deliver` the second; `Env` holds what net/http, mime, encoding/json and the sender do.
-- Server/Life models internal/server/server.go and the service of internal/cli/root.go around it, over
-- a script of what the listener, the server and the context do.
-- Config, Config/Serve and Config/Load model internal/config/config.go: the decoded configuration, its
-- defaults, ValidateServe and Load; `Parsers` holds what packages path, net/url, net and time do with a
-- text, and `Decoder` is the TOML decoder.
-- Logging models internal/logging/logging.go and internal/qqbot/log.go.
-- Qqbot/Sender models the delivery loop of `Send`, Qqbot/Queue the calls of `Send` that run at once.
-- Qqbot/Gateway models the connection state and its critical sections, Qqbot/Gateway/Handlers what BotGo
-- calls, Qqbot/Gateway/Supervisor the
-- loop of `Run` as a machine over the events of the manager, the handlers and `select`, and
-- Qqbot/Gateway/Discovery what comes before that loop.
-- Qqbot/Client models internal/qqbot/api.go.
-- Qqbot/Websocket and Qqbot/Session model internal/qqbot/gateway_session.go: an attempt at a session over
-- a script of what the client of BotGo does, and the loop of `Start` over a list of such attempts,
-- against an `Observer`; Qqbot/Session/Observed has the gateway as the observer.
-- Qqbot/Exchange, Qqbot/ConnectUrl, Qqbot/Secret and Qqbot/Binding model internal/qqbot/auth.go: the
-- exchange of JSON and the creation of a task; the URL of the QR code; the decryption; the loops of `Connect` and `waitForBinding` over a
-- list of rounds and polls. `Http` holds what one exchange meets, `Crypto` base64 and AES-GCM.
-- Cli/Services models internal/cli/services.go: `runServeServices`, which starts the gateway and, once
-- that is ready, the HTTP server, as a machine over their returns and its own receives.
-- Cli/Serve and Cli/Auth model the commands of internal/cli/root.go: `World` and `Output` hold what
-- the libraries do. Cli/Serve/Forwarded runs the handler with the options of a configuration and with
-- the sender, Cli/Serve/Concurrent with requests at once. Qqbot/Queue/Ahead and Qqbot/Queue/Serial relate
-- the machine of interleaved calls to the loop of one, and Qqbot/Queue/Answered to what the API answered
-- in a run. Cli/Shutdown puts the gateway's `Run` and the HTTP
-- service into the machine of `runServeServices`.
--
-- A text of the source is a `Text`. Times and durations are numbers of nanoseconds, and a duration
-- that is not positive is 0. Loops recur on the lists that they go through, and a loop that retries for
-- ever goes through a list of what it meets. Only `digits` in Config takes fuel, one more than the
-- number that it prints, which has fewer digits than that.
--
-- Some steps of the source are one step here: the unlocking of the gateway's mutex and the notification
-- behind it, and the two receives with which a call of `Send` frees the gate and its place. The path of a
-- request is compared with the alert path as a text, while http.ServeMux first takes the escapes away.
--
-- Not modelled: the tree of cobra commands with its flags, and `main` (cmd/gatus-qqbot/main.go), which
-- prints an error and exits; the drawing of QR codes; and the libraries that the program calls: BotGo,
-- net/http, encoding/json, the TOML package and log/slog. Their results are parameters.
pub mod Base
pub mod Strings
pub mod Url
pub mod Errors
pub mod Gatus
pub mod Config
pub mod Server
pub mod Qqbot
pub mod Logging
pub mod Cli
