-- ===== src/Tests/Sockets.antt =====
-- WsConnection::onRead, WsConnection::sendText and WsConnection::onWrite at a concrete server.
use chat_room.Common.{
  ◌+◌, true, [], ◌∷◌, ◌++◌, ◌≡◌, ◌≤◌, ◌^◌, bit_or, ap, sym, ◌∙◌, append-nil, refl, arith, length,
}
use chat_room.Common.Text.{Bytes, codes}
use chat_room.Common.Keys.{nat_key, text_key}
use chat_room.Common.Run.{done, Ends}
use chat_room.Buffer
use chat_room.Buffer.View.{init-IsValid, view-init, append-IsValid, view-append}
use chat_room.Ws.Frame
use chat_room.Ws.Frame.{Frame}
use chat_room.Ws.Frame.Decode.{client_frame}
use chat_room.Web.Socket.{frame_loop}
use chat_room.Web.Socket.Rounds.{frame_loop-ping}
use chat_room.Web.World.{Web, Sockets, new_ws}
use chat_room.Web.Connection.Reads.{HasHub}
use chat_room.Tests.Sessions.{toy}
use chat_room.Reactor
use chat_room.Web.Hub.{send_text}
use chat_room.Web.Io.Drain.{TakesSome}
use chat_room.Web.Socket
use chat_room.Web.Socket.Writes.{on_write-send_text}
use chat_room.Tests.Sending.{toy_send}
use chat_room.Web.Socket.Reads.{ws_read-HasHub}
use chat_room.Tests.Webs.{host, web, recv_all, recv_all-IsReceived}

-- The WebSocket at 7 has received a PING frame with the payload "hi".
abbrev beat : Frame
beat = record { fin = true; opcode = 9; payload = codes "hi" }

abbrev beat_bytes : Bytes
beat_bytes = client_frame beat (1 ∷ 2 ∷ 3 ∷ 4 ∷ [])

abbrev pinged : Web
pinged = record web {
  sockets = record web.sockets {
    ws = λ p. record (new_ws (p + 20) (codes "bob")) {
      read_buf = Buffer.append beat_bytes Buffer.init;
    };
  };
}

beat-fits : length (Buffer.view Buffer.init) + length beat_bytes ≤ 2 ^ 57
beat-fits = rw view-init (omega arith)

frame_loop-ping_example :
    (u : Web) × (frame_loop host 2 7 pinged ≡ frame_loop host 1 7 u)
    × (Buffer.view (u.sockets.ws 7).read_buf ≡ [])
    × ((u.sockets.ws 7).write_buf
        ≡ Buffer.append (Frame.encode_pong (codes "hi")) (pinged.sockets.ws 7).write_buf)
frame_loop-ping_example =
    frame_loop-ping host 7 1 beat 1 2 3 4 [] pinged
      (append-IsValid beat_bytes Buffer.init init-IsValid beat-fits)
      (view-append beat_bytes Buffer.init init-IsValid beat-fits
        ∙ ap (λ t. t ++ beat_bytes) view-init
        ∙ sym (append-nil beat_bytes))
      (omega arith) (omega arith) (omega arith) (omega arith) refl

ws_read-HasHub_example :
    Ends
      (λ (r : Web × Bytes). HasHub toy r.0)
      (Socket.on_read host recv_all (λ k. length k) 7 (beat_bytes ++ (0x81 ∷ 0x05 ∷ [])) web)
ws_read-HasHub_example =
    ws_read-HasHub host 7 recv_all (λ k. k) recv_all-IsReceived (beat_bytes ++ (0x81 ∷ 0x05 ∷ []))
      web refl init-IsValid (rw view-init (omega arith))

toy_send-TakesSome :
    (sent_bytes bytes : Bytes)
    → 1 ≤ length bytes
    → TakesSome bytes sent_bytes (toy_send sent_bytes bytes).1 (toy_send sent_bytes bytes).0
toy_send-TakesSome sent_bytes bytes h = (omega arith, omega arith, refl)

on_write-send_text_example :
    (t : Sockets) × (l : Bytes) × (Socket.on_write host toy_send 7 []
        (send_text 7 (codes "hello") web.sockets)
      ≡ done (t, l))
    × (l ≡ Buffer.view Buffer.init ++ Frame.encode_text (codes "hello"))
    × (Buffer.view (t.ws 7).write_buf ≡ [])
    × (t.reactor
        ≡ Reactor.modify_fd 27 Reactor.epoll_in (send_text 7 (codes "hello") web.sockets).reactor)
    × ((more : Bytes)
        → (send_text 7 more t).reactor
          ≡ Reactor.modify_fd 27 (bit_or Reactor.epoll_in Reactor.epoll_out) t.reactor)
unfolding Frame.encode_text Frame.encode_frame Frame.length_field
on_write-send_text_example =
    on_write-send_text 7 host toy_send (λ out. out) toy_send-TakesSome (codes "hello") []
      web.sockets refl refl init-IsValid (rw view-init (omega arith))
