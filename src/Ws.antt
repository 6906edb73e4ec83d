-- ===== src/Ws.antt =====
-- The WebSocket side of the server: src/server/ws_*.{h,cpp}.
pub mod Frame
pub mod Sha1
pub mod Base64
pub mod Handshake
