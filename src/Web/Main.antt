-- ===== src/Web/Main.antt =====
-- src/server/main.cpp: the objects of the server, what its callbacks do, and its loop.
use chat_room.Common.{ℕ, ◌+◌, Bool, true, Option, none, some, [], if◌then◌else◌}
use chat_room.Common.Text.{Bytes}
use chat_room.Common.Dict.{Dict}
use chat_room.Common.Int.{ℤ}
use chat_room.Common.Run.{Run, done, ◌>>=◌}
use chat_room.Reactor
use chat_room.Reactor.Loop.{Waited, loop}
use chat_room.Room
use chat_room.Tcp.Io.{Received, Sent}
use chat_room.TokenStore
use chat_room.Web.World.{
  fd_of, Web, Host, Spot, HttpConnection, WsConnection, Callback, accept_all, http_read, http_write,
  ws_read, ws_write,
}
use chat_room.Web.Hub.{subscribe}
use chat_room.Web.Connection
use chat_room.Web.Socket
use chat_room.Web.Routes.{Handler, register_http_routes}
use chat_room.Web.Server.{dispatch}
use chat_room.Web.Accept.{Accepted, Opened, start, on_accept}

-- The system calls on a descriptor, over a state K of the kernel: how many bytes it has for a
-- descriptor and how many connections wait, what nowMs() gives, where the next object is allocated,
-- what epoll_wait reports, and whether a signal has stopped the reactor.
pub record Kernel {κ} (K : Type κ) : Type κ where
  pub recv : ℕ → K → ℕ → Received × K
  pub send_to : ℕ → K → Bytes → Sent × K
  pub accept : K → Accepted × K
  pub pending : ℕ → K → ℕ
  pub waiting : K → ℕ
  pub now : K → ℤ
  pub spot : K → Spot
  pub wait : K → Waited × K
  pub running : K → Bool

-- The objects of main before start, with what stands at the addresses of no object.
unfoldable pub init : Host → Bytes → (ℕ → HttpConnection) → (ℕ → WsConnection) → ℤ → Web
init host webroot http ws now = record {
  http = http;
  conns = [];
  listen_fd = none;
  webroot = webroot;
  deps = some (record { tokens = true; hub = true });
  room = subscribe host.json Room.init;
  tokens = TokenStore.init;
  sockets = record { reactor = Reactor.empty; ws = ws; clients = []; closed_fds = [] };
  now = now;
}

module _ {κ} {K : Type κ} (host : Host) (sys : Kernel K) where
  -- The routes of main.
  abbrev pub routes : Dict Bytes Handler
  routes = register_http_routes host.json []

  -- What a callback of the reactor does.
  unfoldable pub call : Callback → K → Web → Run (Web × K)
  call accept_all k w = on_accept host sys.accept (1 + sys.waiting k) k w
  call (http_read p) k w =
      let fd = fd_of (w.http p) in
      Connection.on_read host (dispatch host routes) (sys.recv fd) (sys.pending fd) (sys.spot k) p k
        (record w { now = sys.now k })
  call (http_write p) k w =
      Connection.on_write host (sys.send_to (fd_of (w.http p))) (sys.spot k) p k w
  call (ws_read p) k w =
      let fd = (w.sockets.ws p).fd in
      Socket.on_read host (sys.recv fd) (sys.pending fd) p k (record w { now = sys.now k })
  call (ws_write p) k w = do
    r ← Socket.on_write host (sys.send_to (w.sockets.ws p).fd) p k w.sockets
    done (record w { sockets = r.0 }, r.1)

  -- main: the exit code once the loop has ended, or none after `n` rounds of it.
  unfoldable pub main : Opened → ℕ → K → Web → Run (Option ℕ × Web × K)
  unfolding call
  main opened n k w = do
    started ← start opened w
    if started.0
        then (do
          r ← loop (λ v. v.sockets.reactor) call sys.running sys.wait none n k started.1
          done (if r.0 then some 0 else none, r.1, r.2))
        else done (some 1, started.1, k)
