-- ===== src/Web/Connection/Closing.antt =====
-- How a connection of src/server/http_connection.cpp ends: its descriptor is closed, or it goes to the
-- WebSocket hub.
use chat_room.Common.{
  not, ◌&&◌, sym, List, ℕ, Bool, true, false, some, ◌∷◌, ◌==◌, ==_iff, if◌then◌else◌, ◌≡◌, refl, ap,
  ◌∙◌, inl, inr, Bool-cases, arith,
}
use chat_room.Common.Dict
use chat_room.Common.Dict.{lookup-insert}
use chat_room.Common.Keys.{nat_key}
use chat_room.Common.Int.{ℤ, pos, negsuc, to_size}
use chat_room.Common.Run.{done}
use chat_room.Reactor
use chat_room.Reactor.{FdContext}
use chat_room.Tcp.Io.{emptied}
use chat_room.Web.World.{
  fd_of, Web, Host, Spot, HttpConnection, Sockets, closed, is_active, set_http, set_ws, disarm,
  forget, has_hub, new_ws, ws_read, ws_write,
}
use chat_room.Web.Connection.{
  close, on_http_close, erase_conn, close_own_fd, is_fd, shut, after_write,
}
use chat_room.Web.Hub.{adopt_connection, insert_client}

chosen : {A : Type 0} (b : Bool) (x y : A) → b ≡ true → (if b then x else y) ≡ x
chosen true x y h = refl
chosen false x y h = absurd (ground (arith, h))

chosen_not : {A : Type 0} (b : Bool) (x y : A) → b ≡ false → (if b then x else y) ≡ y
chosen_not true x y h = absurd (ground (arith, h))
chosen_not false x y h = refl

-- A connection that the server holds and nobody has closed.
pub record IsOpen (p : ℕ) (w : Web) : Type 0 where
  pub active : is_active (w.http p).state ≡ true
  pub owned : Dict.lookup (fd_of (w.http p)) w.conns ≡ some p

-- What stands in the memory of the connection at `p` once it is closed and deleted.
abbrev pub leftover : Host → ℕ → Web → HttpConnection
leftover host p w = host.freed_http (record (w.http p) { state = closed })

-- The descriptors closed once the one of a connection is closed too: it is not negative, and the
-- connection was not upgraded.
abbrev pub closed_by : ℤ → Bool → List ℕ → List ℕ
closed_by (pos n) false fds = n ∷ fds
closed_by (pos n) true fds = fds
closed_by (negsuc n) upgraded fds = fds

closed_by_lem :
    (fd : ℤ) (upgraded : Bool) (fds : List ℕ)
    → (if not upgraded && is_fd fd then to_size fd ∷ fds else fds) ≡ closed_by fd upgraded fds
closed_by_lem (pos n) false fds = refl
closed_by_lem (pos n) true fds = refl
closed_by_lem (negsuc n) false fds = refl
closed_by_lem (negsuc n) true fds = refl

-- How a server stands after the connection at `p` has left it: `closed_fds` is read from `leftover`.
pub record HasLeft (host : Host) (p : ℕ) (w v : Web) : Type 0 where
  pub conns : v.conns ≡ Dict.erase (fd_of (w.http p)) w.conns
  pub closed_fds :
      v.sockets.closed_fds
      ≡ closed_by (leftover host p w).fd (leftover host p w).upgraded w.sockets.closed_fds
  pub others : (q : ℕ) → (p == q) ≡ false → v.http q ≡ w.http q

-- The end of close, once the connection is deleted.
own-HasLeft :
    (host : Host) (p : ℕ) (w e : Web)
    → e.conns ≡ Dict.erase (fd_of (w.http p)) w.conns
    → e.http p ≡ leftover host p w
    → e.sockets.closed_fds ≡ w.sockets.closed_fds
    → ((q : ℕ) → (p == q) ≡ false → e.http q ≡ w.http q)
    → HasLeft host p w (close_own_fd p e)
unfolding close_own_fd
own-HasLeft host p w e conns here fds others =
    let c = leftover host p w in
    let test = not c.upgraded && is_fd c.fd in
    let fewer = w.sockets.closed_fds in
    let more : List ℕ = fd_of c ∷ fewer in
    let closed_lem = closed_by_lem c.fd c.upgraded fewer in
    elim (Bool-cases (not (leftover host p w).upgraded && is_fd (leftover host p w).fd)) [
      | inl b ↦
          rw (close_own_fd, here, b)
            (record {
              conns = conns;
              closed_fds = ap (λ l. fd_of c ∷ l) fds ∙ sym (chosen test more fewer b) ∙ closed_lem;
              others = others;
            })
      | inr b ↦
          rw (close_own_fd, here, b)
            (record {
              conns = conns;
              closed_fds = fds ∙ sym (chosen_not test more fewer b) ∙ closed_lem;
              others = others;
            })
    ]

module _ (p : ℕ) (e : Web) where
  own_fd_reactor : (close_own_fd p e).sockets.reactor ≡ e.sockets.reactor
  unfolding close_own_fd
  own_fd_reactor = ground arith

  own_fd_ws : (close_own_fd p e).sockets.ws ≡ e.sockets.ws
  unfolding close_own_fd
  own_fd_ws = ground arith

  own_fd_clients : (close_own_fd p e).sockets.clients ≡ e.sockets.clients
  unfolding close_own_fd
  own_fd_clients = ground arith

module _ (host : Host) (spot : Spot) (p : ℕ) (w : Web) (open_conn : IsOpen p w) where
  same : (p == p) ≡ true
  same = (==_iff p p).1 refl

  -- The server with the connection deleted and the given sockets.
  abbrev deleted : Sockets → Web
  deleted s =
      set_http p (leftover host p w)
        (record (shut p w) { conns = Dict.erase (fd_of (w.http p)) w.conns; sockets = s })

  erased_lem :
      (s : Sockets)
      → erase_conn host (fd_of (w.http p)) (record (shut p w) { sockets = s }) ≡ deleted s
  unfolding erase_conn
  erased_lem s = rw (erase_conn, open_conn.owned, same) refl

  close_via :
      (e : Web)
      → on_http_close host spot p (shut p w) ≡ done e
      → close host spot p w ≡ done (close_own_fd p e)
  unfolding close
  close_via e h = rw (close, open_conn.active, h) refl

  deleted-HasLeft :
      (s : Sockets)
      → s.closed_fds ≡ w.sockets.closed_fds
      → HasLeft host p w (close_own_fd p (deleted s))
  deleted-HasLeft s fds =
      own-HasLeft host p w (deleted s) refl (rw same refl) fds (λ q h. rw h refl)

  abbrev off : Sockets
  off = forget (fd_of (w.http p)) w.sockets

  shut_fd : fd_of ((shut p w).http p) ≡ (fd_of (w.http p))
  shut_fd = rw same refl

  shut_user : ((shut p w).http p).upgraded_user ≡ (w.http p).upgraded_user
  shut_user = rw same refl

  shut_upgraded : (b : Bool) → (w.http p).upgraded ≡ b → ((shut p w).http p).upgraded ≡ b
  shut_upgraded b u = rw same u

  on_plain_close :
      (w.http p).upgraded ≡ false → on_http_close host spot p (shut p w) ≡ done (deleted off)
  unfolding on_http_close
  on_plain_close u = rw (on_http_close, shut_upgraded false u, shut_fd) (ap done (erased_lem off))

  -- HttpConnection::close of a connection that has not become a WebSocket: the server and the reactor
  -- no longer have it. What is closed is not the descriptor of the connection but the one that the
  -- memory of the deleted connection names, and none if that memory says that it was upgraded or holds
  -- a negative descriptor.
  pub close_plain :
      (w.http p).upgraded ≡ false
      → (v : Web) × (close host spot p w ≡ done v)
        × HasLeft host p w v
        × (v.sockets.reactor ≡ Reactor.remove_fd (fd_of (w.http p)) w.sockets.reactor)
        × (v.sockets.clients ≡ w.sockets.clients)
  close_plain u = (
    close_own_fd p (deleted off),
    close_via (deleted off) (on_plain_close u),
    deleted-HasLeft off refl,
    own_fd_reactor p (deleted off),
    own_fd_clients p (deleted off),
  )

  -- The sockets once the hub has a connection for the descriptor.
  abbrev adopted : Sockets
  adopted =
      insert_client spot.address
        (record (set_ws spot.address (new_ws (fd_of (w.http p)) (w.http p).upgraded_user) off) {
          reactor = record {
            contexts =
                Dict.insert (fd_of (w.http p))
                  (record {
                    on_read = some (ws_read spot.address);
                    on_write = some (ws_write spot.address);
                  })
                  off.reactor.contexts;
            calls = Reactor.ctl_add (fd_of (w.http p)) Reactor.epoll_in ∷ off.reactor.calls;
          };
        })

  on_upgraded_close :
      (w.http p).upgraded ≡ true
      → has_hub w.deps ≡ true
      → spot.added ≡ true
      → on_http_close host spot p (shut p w) ≡ done (deleted adopted)
  unfolding on_http_close adopt_connection
  on_upgraded_close u hub added =
      rw
        (
          on_http_close,
          shut_upgraded true u,
          shut_fd,
          shut_user,
          hub,
          adopt_connection,
          added,
          same_spot,
        )
        (ap done (erased_lem adopted))
    where
      same_spot : (spot.address == spot.address) ≡ true
      same_spot = (==_iff spot.address spot.address).1 refl

  -- An upgraded connection whose answer is written out, where epoll takes the descriptor again: the
  -- server no longer has the connection, the hub has one for the same descriptor and the user of the
  -- token, and the reactor calls it. The descriptor stays open if the memory of the deleted
  -- connection still says that it was upgraded; if not, the descriptor named there is closed, if it is
  -- not negative.
  pub after_write-upgraded :
      (w.http p).upgraded ≡ true
      → (w.http p).close_after_write ≡ true
      → has_hub w.deps ≡ true
      → spot.added ≡ true
      → (v : Web) × (after_write host spot emptied p w ≡ done v)
        × HasLeft host p w v
        × (v.sockets.clients ≡ Dict.insert spot.address tt w.sockets.clients)
        × (v.sockets.ws spot.address ≡ new_ws (fd_of (w.http p)) (w.http p).upgraded_user)
        × (Dict.lookup (fd_of (w.http p)) v.sockets.reactor.contexts
            ≡ some (record {
              on_read = some (ws_read spot.address);
              on_write = some (ws_write spot.address);
            }))
  unfolding after_write
  after_write-upgraded u closing hub added = (
    close_own_fd p (deleted adopted),
    chosen (w.http p).close_after_write (close host spot p w)
          (done (record w { sockets = disarm (fd_of (w.http p)) w.sockets })) closing
        ∙ close_via (deleted adopted) (on_upgraded_close u hub added),
    deleted-HasLeft adopted refl,
    own_fd_clients p (deleted adopted),
    rw (own_fd_ws p (deleted adopted)) (ground (arith, ==_iff spot.address spot.address)),
    rw (own_fd_reactor p (deleted adopted)) (
        lookup-insert (fd_of (w.http p)) (fd_of (w.http p)) _ off.reactor.contexts
        ∙ ground (arith, ==_iff (fd_of (w.http p)) (fd_of (w.http p)))),
  )
