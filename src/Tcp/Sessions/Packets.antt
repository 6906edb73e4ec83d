-- ===== src/Tcp/Sessions/Packets.antt =====
-- Every packet keeps the users and the states in agreement.
use chat_room.Common.{ℕ, false, [], ◌==◌, inl, inr, Bool-cases, Option-cases}
use chat_room.Common.Text.{Bytes, codes, is_empty}
use chat_room.Common.Keys.{nat_key, text_key}
use chat_room.Common.Run.{done, or_throw, Returns, Returns-any, Returns-either}
use chat_room.Json.{Json}
use chat_room.Packet
use chat_room.Packet.{Packet}
use chat_room.Tcp.Users
use chat_room.Tcp.Users.{Users}
use chat_room.Tcp.World.{World, is_authenticated, is_closed, send, broadcast_but}
use chat_room.Tcp.Sessions.{
  IsConsistent, send-SameSessions, broadcast_but-SameSessions, IsConsistent-same,
}
use chat_room.Tcp.Handler.{
  remove_user, dumped, send_ack, handle_login, say, handle_chat, tell, handle_private,
  handle_user_list, handle_ping, handle_log_out, on_packet,
}
use chat_room.Tcp.Sessions.Closing.{remove_user-IsDetached}
use chat_room.Tcp.Sessions.Keeps.{Returns-same, send_ack-SameSessions, close-IsConsistent_open}
use chat_room.Tcp.Sessions.Closing.{remove_user-IsDetached}
use chat_room.Tcp.Sessions.Login.{login_as-IsConsistent}

module _ (json : Json) (p : ℕ) (pkt : Packet) (w : World) (c : IsConsistent w) where
  refused : (err : Bytes) → Returns IsConsistent (send_ack json p false err w)
  refused err = Returns-same _ c (send_ack-SameSessions json p false err w)

  handle_login-IsConsistent : Returns IsConsistent (handle_login json p pkt w)
  unfolding handle_login
  handle_login-IsConsistent = elim (Bool-cases (is_authenticated (w.heap p).state)) [
    | inl e ↦ rw e (refused _)
    | inr e ↦ elim (Option-cases (json.parse pkt.body)) [
      | inl f ↦ rw (e, f) (refused _)
      | inr (j, f) ↦
          rw (e, f)
            (Returns-any IsConsistent (or_throw (json.value j (codes "username") [])) _
              (λ name. login_as-IsConsistent json p name w e c))
    ]
  ]

  say-IsConsistent : (content : Bytes) → Returns IsConsistent (say json p content w)
  unfolding say
  say-IsConsistent content = elim (Bool-cases (is_empty content)) [
    | inl e ↦ rw e c
    | inr e ↦ rw e (
        Returns-any IsConsistent (dumped json _ _) (λ bp. done (broadcast_but p bp w))
          (λ bp. IsConsistent-same (broadcast_but-SameSessions p bp w) c))
  ]

  handle_chat-IsConsistent : Returns IsConsistent (handle_chat json p pkt w)
  unfolding handle_chat
  handle_chat-IsConsistent = elim (Bool-cases (is_authenticated (w.heap p).state)) [
    | inl e ↦ elim (Option-cases (json.parse pkt.body)) [
      | inl f ↦ rw (e, f) c
      | inr (j, f) ↦
          rw (e, f)
            (Returns-any IsConsistent (or_throw (json.value j (codes "content") [])) _
              say-IsConsistent)
    ]
    | inr e ↦ rw e (refused _)
  ]

  tell-IsConsistent : (to content : Bytes) → Returns IsConsistent (tell json p to content w)
  unfolding tell
  tell-IsConsistent to content = elim (Bool-cases (Users.get to w.users == 0)) [
    | inl e ↦ rw e (refused _)
    | inr e ↦ rw e (
        Returns-any IsConsistent (dumped json _ _) (λ bp. done (send (Users.get to w.users) bp w))
          (λ bp. IsConsistent-same (send-SameSessions (Users.get to w.users) bp w) c))
  ]

  handle_private-IsConsistent : Returns IsConsistent (handle_private json p pkt w)
  unfolding handle_private
  handle_private-IsConsistent = elim (Bool-cases (is_authenticated (w.heap p).state)) [
    | inl e ↦ elim (Option-cases (json.parse pkt.body)) [
      | inl f ↦ rw (e, f) c
      | inr (j, f) ↦
          rw (e, f)
            (Returns-any IsConsistent (or_throw (json.value j (codes "to") [])) _ (λ to.
              Returns-any IsConsistent (or_throw (json.value j (codes "content") [])) _
                (tell-IsConsistent to)))
    ]
    | inr e ↦ rw e (refused _)
  ]

  handle_user_list-IsConsistent : Returns IsConsistent (handle_user_list json p w)
  unfolding handle_user_list
  handle_user_list-IsConsistent =
      Returns-any IsConsistent (dumped json _ _) (λ bp. done (send p bp w))
        (λ bp. IsConsistent-same (send-SameSessions p bp w) c)

  handle_ping-IsConsistent : Returns IsConsistent (handle_ping json p w)
  unfolding handle_ping
  handle_ping-IsConsistent = IsConsistent-same (send-SameSessions p _ w) c

  handle_log_out-IsConsistent : Returns IsConsistent (handle_log_out json p w)
  unfolding handle_log_out
  handle_log_out-IsConsistent = elim (Bool-cases (is_closed (w.heap p).state)) [
    | inl e ↦ rw e c
    | inr e ↦
        rw e
          (close-IsConsistent_open json p (remove_user p w) e (inr (remove_user-IsDetached p w c)))
  ]

  -- Where the users and the connections' states agree, they agree after the answer to any packet,
  -- on whatever connection and in whatever state, unless an exception leaves the handler.
  pub on_packet-IsConsistent : Returns IsConsistent (on_packet json p pkt w)
  unfolding on_packet
  on_packet-IsConsistent =
      let t = pkt.type in
      Returns-either IsConsistent (t == Packet.msg_login) _ _ handle_login-IsConsistent (
        Returns-either IsConsistent (t == Packet.msg_chat) _ _ handle_chat-IsConsistent (
          Returns-either IsConsistent (t == Packet.msg_private) _ _ handle_private-IsConsistent (
            Returns-either IsConsistent (t == Packet.msg_user_list) _ _
              handle_user_list-IsConsistent
              (Returns-either IsConsistent (t == Packet.msg_ping) _ _ handle_ping-IsConsistent (
                Returns-either IsConsistent (t == Packet.msg_logout) _ _ handle_log_out-IsConsistent
                  c)))))
