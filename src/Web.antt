-- ===== src/Web.antt =====
-- The server of src/server/main.cpp: HTTP connections, routes, the WebSocket hub and its connections.
pub mod World
pub mod Hub
pub mod Io
pub mod Connection
pub mod Socket
pub mod Numbers
pub mod Routes
pub mod Server
pub mod Accept
pub mod Main
pub mod Sessions
