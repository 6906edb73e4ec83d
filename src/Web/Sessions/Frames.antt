-- ===== src/Web/Sessions/Frames.antt =====
-- The read loop of src/server/ws_connection.cpp keeps the agreement of tokens and users.
use chat_room.Common.{ℕ, zero, suc, Bool, ◌==◌, ltb, inl, inr, Bool-cases, Option-cases}
use chat_room.Common.Text.{Bytes}
use chat_room.Common.Keys.{text_key, nat_key}
use chat_room.Common.Run.{
  Run, done, thrown, no_fuel, ◌>>=◌, Returns, Returns-bind, Returns-any, Returns-either,
}
use chat_room.Buffer
use chat_room.Room.{Message, add_message}
use chat_room.Ws.Frame
use chat_room.Ws.Frame.{DecodeResult}
use chat_room.Web.World.{Web, Host, Sockets}
use chat_room.Web.Hub.{on_text, chat_message, add_message_caught, tell_room}
use chat_room.Web.Socket
use chat_room.Web.Sessions.{AreSessions}

module _ (host : Host) where
  pub add_message_caught-AreSessions :
      (m : Message) (w : Web) → AreSessions w → Returns AreSessions (add_message_caught m w)
  unfolding add_message_caught add_message
  add_message_caught-AreSessions m w a = go (tell_room m w).1
    where
      go :
          (r : Run Sockets)
          → Returns AreSessions (elim r as (λ r. Run Web) [
            | done s ↦ done (record w { room = (tell_room m w).0; sockets = s })
            | thrown ↦ done (record w { room = (tell_room m w).0 })
            | no_fuel ↦ no_fuel
          ])
      go (done s) = a
      go thrown = a
      go no_fuel = tt

  pub on_text-AreSessions :
      (p : ℕ) (payload : Bytes) (w : Web)
      → AreSessions w
      → Returns AreSessions (on_text host.json p payload w)
  unfolding on_text
  on_text-AreSessions p payload w a = elim (Option-cases (host.json.parse payload)) [
    | inl e ↦ rw (on_text, e) a
    | inr (j, e) ↦ elim (Option-cases (chat_message host.json (w.sockets.ws p).username j w)) [
      | inl f ↦ rw (on_text, e, f) a
      | inr (m, f) ↦ rw (on_text, e, f) (add_message_caught-AreSessions m w a)
    ]
  ]

  pub on_frame-AreSessions :
      (p : ℕ) (f : Frame.Frame) (w : Web)
      → AreSessions w
      → Returns (λ r. AreSessions r.1) (Socket.on_frame host p f w)
  unfolding Socket.on_frame
  on_frame-AreSessions p f w a =
      let P : Bool × Web → Type 0 = λ r. AreSessions r.1 in
      Returns-either P (f.opcode == Frame.text) _ _
        (Returns-bind AreSessions P _ _ (on_text-AreSessions p f.payload w a) (λ v b. b))
        (Returns-either P (f.opcode == Frame.ping) _ _ a (
          Returns-either P (f.opcode == Frame.pong) _ _ a (
            Returns-either P (f.opcode == Frame.binary) _ _ a
              (Returns-either P (f.opcode == Frame.close) _ _ a a))))

  pub on_decoded-AreSessions :
      (again : Web → Run Web) (p : ℕ) (r : DecodeResult) (w : Web)
      → ((v : Web) → AreSessions v → Returns AreSessions (again v))
      → AreSessions w
      → Returns AreSessions (Socket.on_decoded host again p r w)
  unfolding Socket.on_decoded
  on_decoded-AreSessions again p r w k a = elim (Bool-cases (Socket.is_partial r.consumed)) [
    | inl e ↦ rw (Socket.on_decoded, e) a
    | inr e ↦ elim (Bool-cases (Socket.is_error r.consumed)) [
      | inl f ↦ rw (Socket.on_decoded, e, f) a
      | inr f ↦
          rw (Socket.on_decoded, e, f)
            (Returns-bind (λ (v : Bool × Web). AreSessions v.1) AreSessions
              (Socket.on_frame host p r.frame
                (Socket.with_sockets w (Socket.consume_read p r.consumed w.sockets)))
              _
              (on_frame-AreSessions p r.frame
                (Socket.with_sockets w (Socket.consume_read p r.consumed w.sockets)) a)
              (λ v b. Returns-either AreSessions v.0 (again v.1) (done v.1) (k v.1 b) b))
    ]
  ]

  pub frame_loop-AreSessions :
      (n p : ℕ) (w : Web) → AreSessions w → Returns AreSessions (Socket.frame_loop host n p w)
  unfolding Socket.frame_loop
  frame_loop-AreSessions zero p w a = tt
  frame_loop-AreSessions (suc n) p w a =
      let b = (w.sockets.ws p).read_buf in
      let r = Socket.decoded (Frame.try_decode (Buffer.peek b) (Buffer.readable_bytes b)) in
      Returns-either AreSessions (ltb (Buffer.readable_bytes b) 2) (done w)
        (r >>= λ d. Socket.on_decoded host (Socket.frame_loop host n p) p d w) a
        (Returns-any AreSessions r _ (λ d.
          on_decoded-AreSessions (Socket.frame_loop host n p) p d w
            (λ v b. frame_loop-AreSessions n p v b) a))
