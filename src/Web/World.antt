-- ===== src/Web/World.antt =====
-- The objects of src/server/main.cpp and what they share: the reactor, the HTTP and WebSocket
-- connections, the room and the tokens, with the fields of src/server/http_connection.h,
-- src/server/ws_connection.h, src/server/ws_hub.h and src/server/http_server.h. A heap maps an address
-- to the object there; what stands in the memory of a deleted object is a parameter.
use chat_room.Common.{
  ℕ, Bool, true, false, Option, none, some, List, [], ◌∷◌, ◌==◌, ◌&&◌, if◌then◌else◌, bit_or,
}
use chat_room.Common.Text.{Bytes}
use chat_room.Common.Dict.{Dict}
use chat_room.Common.Keys.{nat_key}
use chat_room.Common.Int.{ℤ, pos, to_size}
use chat_room.Common.Run.{Run}
use chat_room.Buffer
use chat_room.Buffer.{Buffer}
use chat_room.Json.{Json}
use chat_room.Reactor
use chat_room.Reactor.{Reactor}
use chat_room.Room.{Room}
use chat_room.TokenStore.{TokenStore}

-- HttpConnection::State and WsConnection::State
pub data State : Type 0 where
  active : State
  closed : State

abbrev pub is_active : State → Bool
is_active active = true
is_active closed = false

-- The callbacks onRequest_ and onClose_ are those that onAccept_ sets on every connection.
pub record HttpConnection : Type 0 where
  pub fd : ℤ
  pub read_buf : Buffer
  pub write_buf : Buffer
  pub close_after_write : Bool
  pub writing : Bool
  pub state : State
  pub upgraded : Bool
  pub upgraded_user : Bytes

-- HttpConnection::HttpConnection
-- The descriptor of a connection, as the reactor, the sockets and conns_ take it. The int of a
-- connection that is alive comes from accept4 and is not negative; memory that is no longer a
-- connection's may hold a negative one, which is the number of its 64 bits here.
abbrev pub fd_of : HttpConnection → ℕ
fd_of c = to_size c.fd

abbrev pub new_http : ℕ → HttpConnection
new_http fd = record {
  fd = pos fd;
  read_buf = Buffer.init;
  write_buf = Buffer.init;
  close_after_write = false;
  writing = false;
  state = active;
  upgraded = false;
  upgraded_user = [];
}

-- The callbacks onText_ and onClose_ are those that adoptConnection sets on every connection.
pub record WsConnection : Type 0 where
  pub fd : ℕ
  pub username : Bytes
  pub read_buf : Buffer
  pub write_buf : Buffer
  pub writing : Bool
  pub state : State
  pub close_after_write : Bool

-- WsConnection::WsConnection
abbrev pub new_ws : ℕ → Bytes → WsConnection
new_ws fd username = record {
  fd = fd;
  username = username;
  read_buf = Buffer.init;
  write_buf = Buffer.init;
  writing = false;
  state = active;
  close_after_write = false;
}

-- What the reactor calls: onAccept_, or onRead or onWrite of a connection.
pub data Callback : Type 0 where
  accept_all : Callback
  http_read : ℕ → Callback
  http_write : ℕ → Callback
  ws_read : ℕ → Callback
  ws_write : ℕ → Callback

-- What the hub and its connections change: `clients` is WsHub::conns_, by address, and `closed_fds`
-- the calls of ::close.
pub record Sockets : Type 0 where
  pub reactor : Reactor Callback
  pub ws : ℕ → WsConnection
  pub clients : Dict ℕ (Unit {0})
  pub closed_fds : List ℕ

-- Which pointers of an HttpDeps are not null.
pub record Deps : Type 0 where
  pub tokens : Bool
  pub hub : Bool

-- `conns` is HttpServer::conns_, the address of the connection of each descriptor, and `now` what
-- nowMs() returns, which is one number during a step.
pub record Web : Type 0 where
  pub http : ℕ → HttpConnection
  pub conns : Dict ℕ ℕ
  pub listen_fd : Option ℕ
  pub webroot : Bytes
  pub deps : Option Deps
  pub room : Room (Run Sockets)
  pub tokens : TokenStore
  pub sockets : Sockets
  pub now : ℤ

-- What is not this program's: nlohmann::json, the files (none where an ifstream does not open), what
-- the memory of a deleted connection holds, and what a fresh Sha1 object holds.
pub record Host : Type 1 where
  pub json : Json
  pub files : Bytes → Option Bytes
  pub freed_http : HttpConnection → HttpConnection
  pub freed_ws : WsConnection → WsConnection
  pub sha1_garbage : List ℕ

-- Where the next object is allocated, and whether epoll_ctl succeeds in adding a descriptor.
pub record Spot : Type 0 where
  pub address : ℕ
  pub added : Bool

-- deps_ && deps_->hub, and the same with deps_->tokens too.
abbrev pub has_hub : Option Deps → Bool
has_hub none = false
has_hub (some d) = d.hub

abbrev pub has_both : Option Deps → Bool
has_both none = false
has_both (some d) = d.tokens && d.hub

abbrev pub set_ws : ℕ → WsConnection → Sockets → Sockets
set_ws p c s = record s { ws = λ q. if p == q then c else s.ws q }

abbrev pub set_http : ℕ → HttpConnection → Web → Web
set_http p c w = record w { http = λ q. if p == q then c else w.http q }

-- reactor_.modifyFd(fd_, EPOLLIN | EPOLLOUT), reactor_.modifyFd(fd_, EPOLLIN), reactor_.removeFd(fd_)
abbrev pub arm : ℕ → Sockets → Sockets
arm fd s = record s {
  reactor = Reactor.modify_fd fd (bit_or Reactor.epoll_in Reactor.epoll_out) s.reactor;
}

abbrev pub disarm : ℕ → Sockets → Sockets
disarm fd s = record s { reactor = Reactor.modify_fd fd Reactor.epoll_in s.reactor }

abbrev pub forget : ℕ → Sockets → Sockets
forget fd s = record s { reactor = Reactor.remove_fd fd s.reactor }

-- ::close(fd_)
abbrev pub close_fd : ℕ → Sockets → Sockets
close_fd fd s = record s { closed_fds = fd ∷ s.closed_fds }
