-- ===== src/Tests.antt =====
-- Runs of the models at concrete inputs, and the theorems applied to them.
mod Buffers
mod Tokens
mod Rooms
mod Sessions
mod Receiving
mod Requests
mod Sending
mod Chats
mod Packets
mod Frames
mod Digests
mod Webs
mod Sockets
mod Responses
