-- ===== src/Cli.antt =====
-- internal/cli: the commands, and the services that one of them runs.
pub mod Services
pub mod Serve
pub mod Auth
pub mod Shutdown
