-- ===== src/Http.antt =====
-- The HTTP server, src/server/http_*: requests and responses.
pub mod Request
pub mod Response
