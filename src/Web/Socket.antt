-- ===== src/Web/Socket.antt =====
-- src/server/ws_connection.cpp: reading frames and writing them out.
pub mod Rounds
pub mod Reads
pub mod Writes
use chat_room.Common.{ℕ, zero, suc, Bool, true, false, ◌==◌, if◌then◌else◌, ltb}
use chat_room.Common.Text.{Bytes}
use chat_room.Common.Int.{ℤ, pos, negsuc, to_size}
use chat_room.Common.Run.{Run, done, thrown, no_fuel, ◌>>=◌}
use chat_room.Buffer
use chat_room.Buffer.{Buffer}
use chat_room.Tcp.Io.{Received, Sent, WriteEnd, emptied, would_block, broken}
use chat_room.Ws.Frame
use chat_room.Ws.Frame.{Outcome, returned, out_of_bounds, length_error}
use chat_room.Web.World.{Web, Host, Sockets, set_ws, disarm}
use chat_room.Web.Hub.{queue_bytes, close, on_text}
use chat_room.Web.Io.{receive, flush}

-- What the sockets become, with the rest of the server as it is.
abbrev pub with_sockets : Web → Sockets → Web
with_sockets w s = record w { sockets = s }

-- A CLOSE frame: the answer is queued, and the connection closes when all is written.
unfoldable pub on_close_frame : ℕ → Sockets → Sockets
on_close_frame p s =
    let t = queue_bytes p Frame.encode_close s in
    set_ws p (record (t.ws p) { close_after_write = true }) t

-- The switch of WsConnection::onRead: whether the loop goes on, and the server.
unfoldable pub on_frame : Host → ℕ → Frame.Frame → Web → Run (Bool × Web)
unfolding on_close_frame
on_frame host p f w =
    if f.opcode == Frame.text
    then (on_text host.json p f.payload w >>= λ v. done (true, v))
    else if f.opcode == Frame.ping
    then done (true, with_sockets w (queue_bytes p (Frame.encode_pong f.payload) w.sockets))
    else if f.opcode == Frame.pong
    then done (true, w)
    else if f.opcode == Frame.binary
    then done (false, with_sockets w (close host p w.sockets))
    else if f.opcode == Frame.close
    then done (true, with_sockets w (on_close_frame p w.sockets))
    else done (false, with_sockets w (close host p w.sockets))

-- A result of tryDecode, or the exception of a payload that is too large. A read behind the end of
-- the buffer's memory is undefined; the run ends there.
abbrev pub decoded {ℓ} : {A : Type ℓ} → Outcome A → Run A
decoded (returned a) = done a
decoded out_of_bounds = thrown
decoded length_error = thrown

-- r.consumed == -1 and r.consumed == 0
abbrev pub is_partial : ℤ → Bool
is_partial (pos n) = false
is_partial (negsuc n) = n == 0

abbrev pub is_error : ℤ → Bool
is_error (pos n) = n == 0
is_error (negsuc n) = false

-- readBuf_.consume(r.consumed)
abbrev pub consume_read : ℕ → ℤ → Sockets → Sockets
consume_read p n s =
    let c = s.ws p in set_ws p (record c { read_buf = Buffer.consume (to_size n) c.read_buf }) s

-- What the loop does with a result of tryDecode; `again` is its next round.
unfoldable pub on_decoded : Host → (Web → Run Web) → ℕ → Frame.DecodeResult → Web → Run Web
on_decoded host again p r w =
    if is_partial r.consumed
    then done w
    else if is_error r.consumed
    then done (with_sockets w (close host p w.sockets))
    else (on_frame host p r.frame (with_sockets w (consume_read p r.consumed w.sockets)) >>= λ v.
        if v.0 then again v.1 else done v.1)

-- The loop of WsConnection::onRead over the frames.
unfoldable pub frame_loop : Host → ℕ → ℕ → Web → Run Web
frame_loop host zero p w = no_fuel
frame_loop host (suc n) p w =
    let b = (w.sockets.ws p).read_buf in
    if ltb (Buffer.readable_bytes b) 2
    then done w
    else (decoded (Frame.try_decode (Buffer.peek b) (Buffer.readable_bytes b)) >>= λ r.
        on_decoded host (frame_loop host n p) p r w)

abbrev pub set_read_buf : ℕ → Buffer → Sockets → Sockets
set_read_buf p b s = set_ws p (record (s.ws p) { read_buf = b }) s

abbrev pub set_write_buf : ℕ → Buffer → Sockets → Sockets
set_write_buf p b s = set_ws p (record (s.ws p) { write_buf = b }) s

-- WsConnection::onRead; `pending` is how many bytes the kernel still has for the connection.
unfoldable pub on_read {κ} :
    {K : Type κ} → Host → (K → ℕ → Received × K) → (K → ℕ) → ℕ → K → Web → Run (Web × K)
on_read host recv pending p k w = do
  got ← receive recv (suc (pending k)) k (w.sockets.ws p).read_buf
  let read = with_sockets w (set_read_buf p got.1 w.sockets)
  v ←
      (if got.0
        then done (with_sockets read (close host p read.sockets))
        else frame_loop host (suc (Buffer.readable_bytes got.1)) p read)
  done (v, got.2)

-- The end of WsConnection::onWrite.
unfoldable pub after_write : Host → WriteEnd → ℕ → Sockets → Sockets
after_write host emptied p s =
    let c = s.ws p in
    if c.close_after_write
    then close host p s
    else disarm c.fd (set_ws p (record c { writing = false }) s)
after_write host would_block p s = s
after_write host broken p s = close host p s

-- WsConnection::onWrite
unfoldable pub on_write {κ} :
    {K : Type κ} → Host → (K → Bytes → Sent × K) → ℕ → K → Sockets → Run (Sockets × K)
unfolding after_write
on_write host send_to p k s = do
  out ← flush send_to (suc (Buffer.readable_bytes (s.ws p).write_buf)) k (s.ws p).write_buf
  done (after_write host out.0 p (set_write_buf p out.1 s), out.2)
