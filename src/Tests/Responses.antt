-- ===== src/Tests/Responses.antt =====
-- HttpConnection::send and HttpConnection::onWrite at a concrete server.
use chat_room.Common.{ℕ, suc, true, ◌≡◌, refl, length, write_at}
use chat_room.Common.Text.{Bytes, text_eq}
use chat_room.Common.Run.{done}
use chat_room.Buffer
use chat_room.Buffer.{Buffer}
use chat_room.Http.Request.Text.{lower}
use chat_room.Http.Response
use chat_room.Http.Response.{HttpResponse}
use chat_room.Reactor
use chat_room.Tcp.Io.{Sent, sent, emptied}
use chat_room.Web.World.{fd_of, Web}
use chat_room.Web.Io.{flush}
use chat_room.Web.Connection
use chat_room.Web.Connection.{send}
use chat_room.Web.Connection.Writes.{send-on_write}
use chat_room.Tests.Requests.{greeting}
use chat_room.Tests.Webs.{host, web, spot}

-- send takes all; the state counts its calls.
abbrev send_all : ℕ → Bytes → Sent × ℕ
send_all k bytes = (sent (length bytes), suc k)

abbrev kept : HttpResponse
kept = record greeting { keep_alive = true }

-- What is left when the response is written out.
abbrev rest : Buffer
rest = let b = ((send kept 1 web).http 1).write_buf in Buffer.consume (length (Buffer.view b)) b

written_out :
    flush send_all
      (suc (Buffer.readable_bytes ((send kept 1 web).http 1).write_buf))
      0
      ((send kept 1 web).http 1).write_buf
    ≡ done (emptied, rest, 1)
unfolding flush send Buffer.append Response.to_string Response.decimal Response.default_reason
    Response.header_lines Response.has_name text_eq lower Buffer.init Buffer.view write_at
    Buffer.consume
written_out = refl

send-on_write_example :
    (v : Web) × (Connection.on_write host send_all spot 1 0 (send kept 1 web) ≡ done (v, 1))
    × (v.sockets.reactor
        ≡ Reactor.modify_fd
            (fd_of ((send kept 1 web).http 1))
            Reactor.epoll_in
            (send kept 1 web).sockets.reactor)
    × ((send kept 1 v).sockets ≡ v.sockets)
    × (((send kept 1 v).http 1).write_buf ≡ Buffer.append (Response.to_string kept) rest)
send-on_write_example =
    send-on_write host send_all spot 1 kept kept 0 1 rest web refl refl written_out
