-- ===== src/Web/Accept.antt =====
-- src/server/http_server.cpp: start, stop and onAccept_.
use chat_room.Common.{ℕ, zero, suc, Bool, true, false, Option, none, some, [], ◌∷◌, if◌then◌else◌}
use chat_room.Common.Dict
use chat_room.Common.Dict.{Dict}
use chat_room.Common.Keys.{nat_key}
use chat_room.Common.Run.{Run, done, no_fuel, ◌>>=◌, or_throw}
use chat_room.Reactor
use chat_room.Web.Connection
use chat_room.Web.World.{Web, Host, Spot, new_http, accept_all, set_http, forget, close_fd}

-- What the system calls of start come to: the descriptor that socket gives, or none, whether bind and
-- listen succeed, and whether epoll_ctl does.
pub record Opened : Type 0 where
  pub fd : Option ℕ
  pub bound : Bool
  pub listening : Bool
  pub added : Bool

-- HttpServer::start: its result, and the server.
unfoldable pub start : Opened → Web → Run (Bool × Web)
start opened w = elim opened.fd [
  | none ↦ done (false, record w { listen_fd = none })
  | some fd ↦
      let opened_fd = record w { listen_fd = some fd } in
      if opened.bound
      then (if opened.listening
          then (do
            reactor ← or_throw (
                Reactor.add_fd opened.added fd Reactor.epoll_in
                  (record { on_read = some accept_all; on_write = none }) w.sockets.reactor)
            done (true, record opened_fd { sockets = record w.sockets { reactor = reactor } }))
          else done (false, opened_fd))
      else done (false, opened_fd)
]

-- conns_.clear(): each connection is deleted.
unfoldable pub clear_conns : Host → Dict ℕ ℕ → Web → Web
clear_conns host [] w = record w { conns = [] }
clear_conns host ((fd, p) ∷ rest) w =
    clear_conns host rest (set_http p (host.freed_http (w.http p)) w)

-- HttpServer::stop
unfoldable pub stop : Host → Web → Web
unfolding clear_conns
stop host w =
    let closed : Web = elim w.listen_fd [
      | none ↦ w
      | some fd ↦ record w { listen_fd = none; sockets = close_fd fd (forget fd w.sockets) }
    ] in
    clear_conns host closed.conns closed

-- conns_.emplace(cfd, conn): where the descriptor has a connection, the new one is deleted with the
-- unique_ptr that still owns it.
unfoldable pub emplace : Host → ℕ → ℕ → Web → Web
emplace host fd p w =
    if Dict.has fd w.conns
    then set_http p (host.freed_http (w.http p)) w
    else record w { conns = Dict.insert fd p w.conns }

-- One connection that accept4 gives.
unfoldable pub accept_one : Host → ℕ → Spot → Web → Run Web
unfolding emplace
accept_one host fd spot w = do
  v ← Connection.start spot.added spot.address (set_http spot.address (new_http fd) w)
  done (emplace host fd spot.address v)

-- accept4: a descriptor, and where its connection is allocated; or -1 with EAGAIN or another error,
-- where the loop ends too.
pub data Accepted : Type 0 where
  accepted : ℕ → Spot → Accepted
  accept_again : Accepted
  accept_failed : Accepted

-- HttpServer::onAccept_, for a listening socket on which at most `n` connections wait.
unfoldable pub on_accept {κ} :
    {K : Type κ} → Host → (K → Accepted × K) → ℕ → K → Web → Run (Web × K)
on_accept host accept zero k w = no_fuel
on_accept host accept (suc n) k w =
    let r = accept k in
    elim r.0 [
      | accepted fd spot ↦ (accept_one host fd spot w >>= λ v. on_accept host accept n r.1 v)
      | accept_again ↦ done (w, r.1)
      | accept_failed ↦ done (w, r.1)
    ]
