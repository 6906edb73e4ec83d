-- ===== src/Web/Connection.antt =====
-- src/server/http_connection.cpp, with the close callback of src/server/http_server.cpp: reading
-- requests, queueing responses, and how a connection ends or becomes a WebSocket.
pub mod Closing
pub mod Reads
pub mod Writes
use chat_room.Common.{ℕ, zero, suc, Bool, true, false, none, some, if◌then◌else◌, ◌&&◌, not}
use chat_room.Common.Int.{ℤ, pos, negsuc}
use chat_room.Common.Text.{Bytes}
use chat_room.Common.Dict
use chat_room.Common.Keys.{nat_key}
use chat_room.Common.Run.{Run, done, no_fuel, ◌>>=◌, or_throw}
use chat_room.Buffer
use chat_room.Buffer.{Buffer}
use chat_room.Http.Request
use chat_room.Http.Request.{HttpRequest}
use chat_room.Http.Response
use chat_room.Http.Response.{HttpResponse}
use chat_room.Reactor
use chat_room.Tcp.Io.{Received, Sent, WriteEnd, emptied, would_block, broken}
use chat_room.Web.World.{
  Web, Host, Spot, HttpConnection, fd_of, closed, is_active, http_read, http_write, has_hub,
  set_http, arm, disarm, forget, close_fd,
}
use chat_room.Web.Hub.{adopt_connection}
use chat_room.Web.Io.{receive, flush}

-- HttpConnection::start
abbrev pub start : Bool → ℕ → Web → Run Web
start added p w = do
  reactor ← or_throw (
      Reactor.add_fd added (fd_of (w.http p)) Reactor.epoll_in
        (record { on_read = some (http_read p); on_write = some (http_write p) }) w.sockets.reactor)
  done (record w { sockets = record w.sockets { reactor = reactor } })

-- The connection with a response queued.
unfoldable pub with_response : HttpResponse → HttpConnection → HttpConnection
with_response resp c = record c {
  write_buf = Buffer.append (Response.to_string resp) c.write_buf;
  close_after_write = if resp.keep_alive then c.close_after_write else true;
  writing = true;
}

-- HttpConnection::send
unfoldable pub send : HttpResponse → ℕ → Web → Web
unfolding with_response
send resp p w =
    let c = w.http p in
    let queued = set_http p (with_response resp c) w in
    if c.writing then queued else record queued { sockets = arm (fd_of c) w.sockets }

-- HttpConnection::markUpgraded
unfoldable pub mark_upgraded : Bytes → ℕ → Web → Web
mark_upgraded username p w =
    set_http p (record (w.http p) { upgraded = true; upgraded_user = username }) w

-- conns_.erase(fd): the unique_ptr there deletes its connection.
unfoldable pub erase_conn : Host → ℕ → Web → Web
erase_conn host fd w = elim (Dict.lookup fd w.conns) [
  | none ↦ w
  | some q ↦ set_http q (host.freed_http (w.http q)) (record w { conns = Dict.erase fd w.conns })
]

-- The close callback of onAccept_.
unfoldable pub on_http_close : Host → Spot → ℕ → Web → Run Web
unfolding erase_conn
on_http_close host spot p w =
    let c = w.http p in
    if c.upgraded
    then (if has_hub w.deps
        then (do
          s ← adopt_connection spot (fd_of c) c.upgraded_user w.sockets
          done (erase_conn host (fd_of c) (record w { sockets = s })))
        else done (erase_conn host (fd_of c) w))
    else done (erase_conn host (fd_of c) w)

-- fd_>=0
abbrev pub is_fd : ℤ → Bool
is_fd (pos n) = true
is_fd (negsuc n) = false

-- The end of HttpConnection::close, which reads upgraded_ and fd_ after the callback has deleted the
-- connection.
unfoldable pub close_own_fd : ℕ → Web → Web
close_own_fd p w =
    let c = w.http p in
    if not c.upgraded && is_fd c.fd then record w { sockets = close_fd (fd_of c) w.sockets } else w

-- state_=CLOSED; reactor_.removeFd(fd_);
abbrev pub shut : ℕ → Web → Web
shut p w =
    let c = w.http p in
    record (set_http p (record c { state = closed }) w) { sockets = forget (fd_of c) w.sockets }

-- HttpConnection::close
unfoldable pub close : Host → Spot → ℕ → Web → Run Web
unfolding on_http_close close_own_fd
close host spot p w =
    if is_active (w.http p).state
    then (on_http_close host spot p (shut p w) >>= λ v. done (close_own_fd p v))
    else done w

abbrev pub set_read_buf : ℕ → Buffer → Web → Web
set_read_buf p b w = set_http p (record (w.http p) { read_buf = b }) w

abbrev pub set_write_buf : ℕ → Buffer → Web → Web
set_write_buf p b w = set_http p (record (w.http p) { write_buf = b }) w

-- The loop of HttpConnection::onRead that parses requests; `on_request` is onRequest_. Every request
-- takes bytes from the buffer.
unfoldable pub parse_loop : (HttpRequest → ℕ → Web → Run Web) → ℕ → ℕ → Web → Run Web
parse_loop on_request zero p w = no_fuel
parse_loop on_request (suc n) p w =
    let parsed = Request.parse (w.http p).read_buf Request.init in
    let rest_read = set_read_buf p parsed.2 w in
    if parsed.0
    then (on_request parsed.1 p rest_read >>= λ v. parse_loop on_request n p v)
    else done rest_read

-- HttpConnection::onRead; `pending` is how many bytes the kernel still has for the connection.
unfoldable pub on_read {κ} :
    {K : Type κ}
    → Host
    → (HttpRequest → ℕ → Web → Run Web)
    → (K → ℕ → Received × K)
    → (K → ℕ)
    → Spot
    → ℕ
    → K
    → Web
    → Run (Web × K)
unfolding parse_loop close
on_read host on_request recv pending spot p k w = do
  got ← receive recv (suc (pending k)) k (w.http p).read_buf
  v ←
      (if got.0
        then close host spot p (set_read_buf p got.1 w)
        else parse_loop on_request (suc (Buffer.readable_bytes got.1)) p (set_read_buf p got.1 w))
  done (v, got.2)

-- The end of HttpConnection::onWrite. writing_ stays as it is.
unfoldable pub after_write : Host → Spot → WriteEnd → ℕ → Web → Run Web
unfolding close
after_write host spot emptied p w =
    let c = w.http p in
    if c.close_after_write
    then close host spot p w
    else done (record w { sockets = disarm (fd_of c) w.sockets })
after_write host spot would_block p w = done w
after_write host spot broken p w = close host spot p w

-- HttpConnection::onWrite
unfoldable pub on_write {κ} :
    {K : Type κ} → Host → (K → Bytes → Sent × K) → Spot → ℕ → K → Web → Run (Web × K)
unfolding after_write
on_write host send_to spot p k w = do
  out ← flush send_to (suc (Buffer.readable_bytes (w.http p).write_buf)) k (w.http p).write_buf
  v ← after_write host spot out.0 p (set_write_buf p out.1 w)
  done (v, out.2)
