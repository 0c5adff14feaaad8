-- ===== src/Server.antt =====
-- internal/server: the HTTP side of the program.
pub mod Handler
pub mod Life
