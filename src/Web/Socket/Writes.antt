-- ===== src/Web/Socket/Writes.antt =====
-- WsConnection::sendText and WsConnection::onWrite of src/server/ws_connection.cpp: what is queued goes
-- out.
use chat_room.Common.{
  ℕ, suc, ◌+◌, ◌≤◌, ◌^◌, bit_or, true, false, [], ◌++◌, ◌==◌, ==_iff, ◌≡◌, refl, ap, ◌∙◌, arith,
  length,
}
use chat_room.Common.Text.{Bytes}
use chat_room.Common.Run.{done}
use chat_room.Buffer
use chat_room.Buffer.{Buffer, IsValid}
use chat_room.Buffer.View.{append-IsValid, view-append}
use chat_room.Reactor
use chat_room.Tcp.Io.{Sent}
use chat_room.Ws.Frame
use chat_room.Web.World.{Host, Sockets, is_active, disarm, set_ws}
use chat_room.Web.Hub.{queue_bytes, send_text}
use chat_room.Web.Io.Drain.{TakesSome, Drains, flush-Drains}
use chat_room.Web.Socket.{set_write_buf, after_write, on_write}

module _ (p : ℕ) where
  same : (p == p) ≡ true
  same = (==_iff p p).1 refl

  -- What the connection is after a text is sent on it.
  sent_lem :
      (text : Bytes) (s : Sockets)
      → is_active (s.ws p).state ≡ true
      → (((send_text p text s).ws p).write_buf
          ≡ Buffer.append (Frame.encode_text text) (s.ws p).write_buf)
        × (((send_text p text s).ws p).close_after_write ≡ (s.ws p).close_after_write)
        × (((send_text p text s).ws p).fd ≡ (s.ws p).fd)
        × (((send_text p text s).ws p).state ≡ (s.ws p).state)
  unfolding send_text queue_bytes
  sent_lem text s a = (
    ground (arith, same, a),
    ground (arith, same, a),
    ground (arith, same, a),
    ground (arith, same, a),
  )

  -- EPOLLOUT is asked for where nothing was being written.
  armed_lem :
      (text : Bytes) (s : Sockets)
      → is_active (s.ws p).state ≡ true
      → (s.ws p).writing ≡ false
      → (send_text p text s).reactor
        ≡ Reactor.modify_fd (s.ws p).fd (bit_or Reactor.epoll_in Reactor.epoll_out) s.reactor
  unfolding send_text queue_bytes
  armed_lem text s a e = rw (send_text, a, queue_bytes, e) refl

  -- What is left when all is written.
  abbrev rested : Buffer → Sockets → Sockets
  rested b s =
      let c = record (s.ws p) { write_buf = b } in
      disarm c.fd (set_ws p (record c { writing = false }) (set_write_buf p b s))

  module _ {κ} {K : Type κ} (host : Host) (send_to : K → Bytes → Sent × K) (out : K → Bytes)
      (law : (k : K) (bytes : Bytes)
        → 1 ≤ length bytes
        → TakesSome bytes (out k) (out (send_to k bytes).1) (send_to k bytes).0) where
    on_write_rested :
        (k : K) (s : Sockets)
        → (s.ws p).close_after_write ≡ false
        → (d : Drains send_to out law
            (suc (Buffer.readable_bytes (s.ws p).write_buf))
            k
            (s.ws p).write_buf)
        → on_write host send_to p k s ≡ done (rested d.1 s, d.0)
    unfolding on_write after_write
    on_write_rested k s kept d = rw (on_write, d.2, after_write, same, kept) refl

    -- A text is sent on an active WebSocket that is not to be closed, and the callback that writes runs
    -- with a send that takes at least one byte at every call: the callback ends, send has then taken
    -- all bytes that waited and the text frame behind them, in order, none is left, the reactor waits
    -- for EPOLLIN only, and a further text that is sent makes it wait for EPOLLOUT again. The write
    -- buffer is well-formed, and what it holds and the frame are at most 2^57 bytes.
    pub on_write-send_text :
        (text : Bytes) (k : K) (s : Sockets)
        → is_active (s.ws p).state ≡ true
        → (s.ws p).close_after_write ≡ false
        → IsValid (s.ws p).write_buf
        → length (Buffer.view (s.ws p).write_buf) + length (Frame.encode_text text) ≤ 2 ^ 57
        → (t : Sockets) × (l : K) × (on_write host send_to p k (send_text p text s) ≡ done (t, l))
          × (out l ≡ out k ++ (Buffer.view (s.ws p).write_buf ++ Frame.encode_text text))
          × (Buffer.view (t.ws p).write_buf ≡ [])
          × (t.reactor
              ≡ Reactor.modify_fd (s.ws p).fd Reactor.epoll_in (send_text p text s).reactor)
          × ((more : Bytes)
              → (send_text p more t).reactor
                ≡ Reactor.modify_fd
                    (s.ws p).fd
                    (bit_or Reactor.epoll_in Reactor.epoll_out)
                    t.reactor)
    on_write-send_text text k s active kept v small =
        let queued = send_text p text s in
        let now = sent_lem text s active in
        let valid : IsValid (queued.ws p).write_buf =
          rw (now.0) (append-IsValid (Frame.encode_text text) (s.ws p).write_buf v small) in
        let d : Drains send_to out law (suc (Buffer.readable_bytes (queued.ws p).write_buf)) k
            (queued.ws p).write_buf =
          flush-Drains send_to out law (suc (Buffer.readable_bytes (queued.ws p).write_buf)) k
            (queued.ws p).write_buf valid (omega arith) in
        let t = rested d.1 queued in
        let fd : (t.ws p).fd ≡ (s.ws p).fd = rw same now.2 in
        (
          t,
          d.0,
          on_write_rested k queued (now.1 ∙ kept) d,
          d.3
              ∙ ap (λ b. out k ++ Buffer.view b) now.0
              ∙ ap (λ b. out k ++ b)
                  (view-append (Frame.encode_text text) (s.ws p).write_buf v small),
          rw same d.4,
          ap (λ (n : ℕ). Reactor.modify_fd n Reactor.epoll_in queued.reactor) now.2,
          λ more.
              armed_lem more t (rw same (ap is_active now.3 ∙ active)) (rw same refl)
              ∙ ap
                  (λ (n : ℕ).
                    Reactor.modify_fd n (bit_or Reactor.epoll_in Reactor.epoll_out) t.reactor)
                  fd,
        )
