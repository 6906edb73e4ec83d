-- ===== src/Tcp/World.antt =====
-- src/tcp/connection.h and what a Connection shares with the rest of the server: the reactor, the
-- users, the managed connections. `heap` is the objects by their addresses; main.cpp never deletes
-- one. `now` is time(nullptr), which is one number during a step.
use chat_room.Common.{ℕ, Bool, true, false, List, [], ◌∷◌, ◌==◌, if◌then◌else◌, ◌&&◌, not, bit_or}
use chat_room.Common.Text.{Bytes}
use chat_room.Common.Dict.{Dict}
use chat_room.Buffer
use chat_room.Buffer.{Buffer}
use chat_room.Packet
use chat_room.Packet.{Packet}
use chat_room.Reactor.{Reactor, modify_fd, epoll_in, epoll_out}
use chat_room.Tcp.Users.{Users}

pub data State : Type 0 where
  connecting : State
  authenticated : State
  closed : State

abbrev pub is_authenticated : State → Bool
is_authenticated connecting = false
is_authenticated authenticated = true
is_authenticated closed = false

abbrev pub is_closed : State → Bool
is_closed connecting = false
is_closed authenticated = false
is_closed closed = true

-- The callbacks onPacket_ and onClose_ are those that main.cpp sets on every connection.
pub record Connection : Type 0 where
  pub fd : ℕ
  pub read_buf : Buffer
  pub write_buf : Buffer
  pub state : State
  pub username : Bytes
  pub writing : Bool
  pub last_active : ℕ

-- Connection::Connection
abbrev pub new_connection : ℕ → ℕ → Connection
new_connection fd now = record {
  fd = fd;
  read_buf = Buffer.init;
  write_buf = Buffer.init;
  state = connecting;
  username = [];
  writing = false;
  last_active = now;
}

-- What the reactor calls: the accept loop of main.cpp, a connection's onRead or onWrite, or the tick.
pub data Callback : Type 0 where
  accept_all : Callback
  read_from : ℕ → Callback
  write_to : ℕ → Callback
  tick_all : Callback

pub record World : Type 0 where
  pub heap : ℕ → Connection
  pub users : Users
  pub managed : Dict ℕ (Unit {0})
  pub reactor : Reactor Callback
  pub closed_fds : List ℕ
  pub now : ℕ

abbrev pub set_conn : ℕ → Connection → World → World
set_conn p c w = record w { heap = λ q. if p == q then c else w.heap q }

-- Connection::setUsername
abbrev pub set_username : ℕ → Bytes → World → World
set_username p name w = set_conn p (record (w.heap p) { username = name; state = authenticated }) w

-- Connection::send
unfoldable pub send : ℕ → Packet → World → World
send p pkt w =
    let c = w.heap p in
    let queued = Buffer.append (Packet.encode pkt) c.write_buf in
    if c.writing
    then set_conn p (record c { write_buf = queued }) w
    else (record (set_conn p (record c { write_buf = queued; writing = true }) w) {
      reactor = modify_fd c.fd (bit_or epoll_in epoll_out) w.reactor;
    })

-- The loops of UserManager::broadcast, over the entries of the map.
unfoldable pub send_each : Users → Packet → World → World
send_each [] pkt w = w
send_each ((name, p) ∷ rest) pkt w = send_each rest pkt (if p == 0 then w else send p pkt w)

unfoldable pub send_each_but : ℕ → Users → Packet → World → World
send_each_but except [] pkt w = w
send_each_but except ((name, p) ∷ rest) pkt w =
    send_each_but except rest pkt (if not (p == 0) && not (p == except) then send p pkt w else w)

-- UserManager::broadcast
unfoldable pub broadcast : Packet → World → World
broadcast pkt w = send_each w.users pkt w

unfoldable pub broadcast_but : ℕ → Packet → World → World
broadcast_but except pkt w = send_each_but except w.users pkt w
