-- ===== src/Server.antt =====
-- internal/server: the parts of the API server that decide something.
pub mod Auth
pub mod Media
