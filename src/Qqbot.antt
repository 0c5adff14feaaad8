-- ===== src/Qqbot.antt =====
-- internal/qqbot: the QQ side of the program.
pub mod Sender
pub mod Queue
pub mod Gateway
pub mod Exchange
pub mod ConnectUrl
pub mod Websocket
pub mod Secret
pub mod Binding
pub mod Client
pub mod Session
