-- ===== src/Tcp.antt =====
-- The TCP chat server, src/tcp: users by name, connections, the handlers, and the main loop's calls.
pub mod Users
pub mod World
pub mod Handler
pub mod Io
pub mod Reading
pub mod Delivery
pub mod Loops
pub mod Main
pub mod Sessions
