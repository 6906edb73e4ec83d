-- ===== src/Web/Connection/Writes.antt =====
-- HttpConnection::send after HttpConnection::onWrite of src/server/http_connection.cpp, on a connection
-- that is kept alive.
use chat_room.Common.{
  ℕ, suc, true, false, ◌==◌, ==_iff, if◌then◌else◌, ◌≡◌, refl, inl, inr, Bool-cases, ◌∙◌,
}
use chat_room.Common.Text.{Bytes}
use chat_room.Common.Run.{done}
use chat_room.Buffer
use chat_room.Buffer.{Buffer}
use chat_room.Http.Response
use chat_room.Http.Response.{HttpResponse}
use chat_room.Reactor
use chat_room.Tcp.Io.{Sent, emptied}
use chat_room.Web.World.{fd_of, Web, Host, Spot, disarm}
use chat_room.Web.Io.{flush}
use chat_room.Web.Connection.{send, after_write, on_write}

-- A connection that is kept alive, and believes that it waits for EPOLLOUT.
abbrev IsKept : ℕ → Web → Type 0
IsKept p w = ((w.http p).writing ≡ true) × ((w.http p).close_after_write ≡ false)

send-IsKept :
    (resp : HttpResponse) (p : ℕ) (w : Web)
    → resp.keep_alive ≡ true
    → (w.http p).close_after_write ≡ false
    → IsKept p (send resp p w)
unfolding send
send-IsKept resp p w alive kept = elim (Bool-cases (w.http p).writing) [
  | inl e ↦ rw (send, e, (==_iff p p).1 refl, alive) (refl, kept)
  | inr e ↦ rw (send, e, (==_iff p p).1 refl, alive) (refl, kept)
]

send_writing :
    (resp : HttpResponse) (p : ℕ) (w : Web)
    → (w.http p).writing ≡ true
    → ((send resp p w).sockets ≡ w.sockets)
      × (((send resp p w).http p).write_buf
          ≡ Buffer.append (Response.to_string resp) (w.http p).write_buf)
unfolding send
send_writing resp p w e = (rw (send, e) refl, rw (send, e, (==_iff p p).1 refl) refl)

module _ {κ} {K : Type κ} (host : Host) (send_to : K → Bytes → Sent × K) (spot : Spot) (p : ℕ) where
  abbrev emptied_at : Buffer → Web → Web
  emptied_at b u = record u {
    http = λ q. if p == q then record (u.http p) { write_buf = b } else u.http q;
    sockets = disarm (fd_of (u.http p)) u.sockets;
  }

  same : (p == p) ≡ true
  same = (==_iff p p).1 refl

  on_write_kept :
      (k l : K) (b : Buffer) (u : Web)
      → IsKept p u
      → flush send_to (suc (Buffer.readable_bytes (u.http p).write_buf)) k (u.http p).write_buf
        ≡ done (emptied, b, l)
      → on_write host send_to spot p k u ≡ done (emptied_at b u, l)
  unfolding on_write after_write
  on_write_kept k l b u kept out = rw (on_write, out, same, kept.1) refl

  -- A response that keeps the connection alive is written out in full, and another response is sent
  -- on the connection: the reactor has been told to wait for EPOLLIN only, the second response stands
  -- in the write buffer, and its send asks for no EPOLLOUT, so that no event will write it. The
  -- connection was not to be closed, and send takes all that it is given before the buffer is empty.
  pub send-on_write :
      (first second : HttpResponse) (k l : K) (b : Buffer) (w : Web)
      → first.keep_alive ≡ true
      → (w.http p).close_after_write ≡ false
      → flush send_to
          (suc (Buffer.readable_bytes ((send first p w).http p).write_buf))
          k
          ((send first p w).http p).write_buf
        ≡ done (emptied, b, l)
      → (v : Web) × (on_write host send_to spot p k (send first p w) ≡ done (v, l))
        × (v.sockets.reactor
            ≡ Reactor.modify_fd
                (fd_of ((send first p w).http p))
                Reactor.epoll_in
                (send first p w).sockets.reactor)
        × ((send second p v).sockets ≡ v.sockets)
        × (((send second p v).http p).write_buf ≡ Buffer.append (Response.to_string second) b)
  send-on_write first second k l b w alive kept out =
      let u = send first p w in
      let is_kept : IsKept p u = send-IsKept first p w alive kept in
      let v = emptied_at b u in
      let quiet = send_writing second p v (rw same is_kept.0) in
      (v, on_write_kept k l b u is_kept out, refl, quiet.0, quiet.1 ∙ rw same refl)
