-- ===== src/Web/Sessions/Callbacks.antt =====
-- The callbacks of the reactor of src/server keep the agreement of tokens and users.
use chat_room.Common.{ℕ, zero, suc, ◌+◌, Bool, true, false, if◌then◌else◌, inl, inr, Bool-cases}
use chat_room.Common.Text.{Bytes}
use chat_room.Common.Dict
use chat_room.Common.Dict.{Dict}
use chat_room.Common.Keys.{text_key, nat_key}
use chat_room.Common.Run.{Run, done, ◌>>=◌, Returns, Returns-bind, Returns-any, Returns-either}
use chat_room.Buffer
use chat_room.Tcp.Io.{Received, Sent}
use chat_room.Web.World.{
  fd_of, Web, Host, Spot, Callback, accept_all, http_read, http_write, ws_read, ws_write, set_http,
  new_http,
}
use chat_room.Web.Connection
use chat_room.Web.Hub
use chat_room.Web.Hub.{on_text, chat_message, add_message_caught, tell_room, adopt_connection}
use chat_room.Web.Io.{receive, flush}
use chat_room.Web.Socket
use chat_room.Web.Routes.{Handler}
use chat_room.Web.Server.{dispatch}
use chat_room.Web.Accept.{
  Accepted, accepted, accept_again, accept_failed, accept_one, on_accept, emplace,
}
use chat_room.Web.Main.{Kernel, call}
use chat_room.Web.Sessions.{AreSessions}
use chat_room.Web.Sessions.Dispatch.{Keeps, table, dispatch-Keeps}
use chat_room.Web.Sessions.Connection.{
  close-AreSessions, parse_loop-AreSessions, after_write-AreSessions,
}
use chat_room.Web.Sessions.Frames.{frame_loop-AreSessions}

module _ (host : Host) where
  emplace-AreSessions : (fd p : ℕ) (w : Web) → AreSessions w → AreSessions (emplace host fd p w)
  unfolding emplace
  emplace-AreSessions fd p w a = elim (Bool-cases (Dict.has fd w.conns)) [
    | inl e ↦ rw (emplace, e) a
    | inr e ↦ rw (emplace, e) a
  ]

  start-AreSessions :
      (added : Bool) (p : ℕ) (w : Web)
      → AreSessions w
      → Returns AreSessions (Connection.start added p w)
  start-AreSessions true p w a = a
  start-AreSessions false p w a = tt

  accept_one-AreSessions :
      (fd : ℕ) (spot : Spot) (w : Web)
      → AreSessions w
      → Returns AreSessions (accept_one host fd spot w)
  unfolding accept_one
  accept_one-AreSessions fd spot w a =
      let made = set_http spot.address (new_http fd) w in
      Returns-bind AreSessions AreSessions (Connection.start spot.added spot.address made)
        (λ v. done (emplace host fd spot.address v))
        (start-AreSessions spot.added spot.address made a)
        (λ v b. emplace-AreSessions fd spot.address v b)

  module _ {κ} {K : Type κ} where
    on_accept-AreSessions :
        (accept : K → Accepted × K) (n : ℕ) (k : K) (w : Web)
        → AreSessions w
        → Returns (λ r. AreSessions r.0) (on_accept host accept n k w)
    unfolding on_accept
    on_accept-AreSessions accept zero k w a = tt
    on_accept-AreSessions accept (suc n) k w a =
        go (accept k).0 (accept k).1 (λ l v b. on_accept-AreSessions accept n l v b)
      where
        go :
            (r : Accepted) (l : K)
            → ((l : K) (v : Web)
                → AreSessions v
                → Returns (λ r. AreSessions r.0) (on_accept host accept n l v))
            → Returns
                (λ r. AreSessions r.0)
                (elim r as (λ r. Run (Web × K)) [
                  | accepted fd spot ↦
                      (accept_one host fd spot w >>= λ v. on_accept host accept n l v)
                  | accept_again ↦ done (w, l)
                  | accept_failed ↦ done (w, l)
                ])
        go (accepted fd spot) l next =
            Returns-bind AreSessions (λ r. AreSessions r.0) _ _ (accept_one-AreSessions fd spot w a)
              (λ v b. next l v b)
        go accept_again l next = a
        go accept_failed l next = a

    abbrev After : Web × K → Type 0
    After r = AreSessions r.0

    http_read-After :
        (h : Handler) (recv : K → ℕ → Received × K) (pending : K → ℕ) (spot : Spot) (p : ℕ) (k : K)
        (w : Web)
        → Keeps h
        → AreSessions w
        → Returns After (Connection.on_read host h recv pending spot p k w)
    unfolding Connection.on_read
    http_read-After h recv pending spot p k w keeps a =
        Returns-any After (receive recv (suc (pending k)) k (w.http p).read_buf) _ (λ got.
          let read = Connection.set_read_buf p got.1 w in
          Returns-bind AreSessions After
            (if got.0
              then Connection.close host spot p read
              else Connection.parse_loop h (suc (Buffer.readable_bytes got.1)) p read)
            (λ v. done (v, got.2))
            (Returns-either AreSessions got.0 (Connection.close host spot p read)
              (Connection.parse_loop h (suc (Buffer.readable_bytes got.1)) p read)
              (close-AreSessions host spot p read a)
              (parse_loop-AreSessions host h keeps (suc (Buffer.readable_bytes got.1)) p read a))
            (λ v b. b))

    http_write-After :
        (send_to : K → Bytes → Sent × K) (spot : Spot) (p : ℕ) (k : K) (w : Web)
        → AreSessions w
        → Returns After (Connection.on_write host send_to spot p k w)
    unfolding Connection.on_write
    http_write-After send_to spot p k w a =
        Returns-any After
          (flush send_to (suc (Buffer.readable_bytes (w.http p).write_buf)) k (w.http p).write_buf)
          _
          (λ out.
            let written = Connection.set_write_buf p out.1 w in
            Returns-bind AreSessions After (Connection.after_write host spot out.0 p written)
              (λ v. done (v, out.2)) (after_write-AreSessions host spot out.0 p written a)
              (λ v b. b))

    ws_read-After :
        (recv : K → ℕ → Received × K) (pending : K → ℕ) (p : ℕ) (k : K) (w : Web)
        → AreSessions w
        → Returns After (Socket.on_read host recv pending p k w)
    unfolding Socket.on_read
    ws_read-After recv pending p k w a =
        Returns-any After (receive recv (suc (pending k)) k (w.sockets.ws p).read_buf) _ (λ got.
          let read = Socket.with_sockets w (Socket.set_read_buf p got.1 w.sockets) in
          let shut = done (Socket.with_sockets read (Hub.close host p read.sockets)) in
          let on = Socket.frame_loop host (suc (Buffer.readable_bytes got.1)) p read in
          Returns-bind AreSessions After (if got.0 then shut else on) (λ v. done (v, got.2))
            (Returns-either AreSessions got.0 shut on a
              (frame_loop-AreSessions host (suc (Buffer.readable_bytes got.1)) p read a))
            (λ v b. b))

    -- Whatever the reactor calls: if the user of every token is in the room and has no other token
    -- before, that holds after it, where the call returns.
    pub call-AreSessions :
        (sys : Kernel K) (c : Callback) (k : K) (w : Web)
        → AreSessions w
        → Returns (λ (r : Web × K). AreSessions r.0) (call host sys c k w)
    unfolding call
    call-AreSessions sys accept_all k w a =
        on_accept-AreSessions sys.accept (1 + sys.waiting k) k w a
    call-AreSessions sys (http_read p) k w a =
        http_read-After (dispatch host (table host)) (sys.recv (fd_of (w.http p)))
          (sys.pending (fd_of (w.http p))) (sys.spot k) p k (record w { now = sys.now k })
          (dispatch-Keeps host) a
    call-AreSessions sys (http_write p) k w a =
        http_write-After (sys.send_to (fd_of (w.http p))) (sys.spot k) p k w a
    call-AreSessions sys (ws_read p) k w a =
        ws_read-After (sys.recv (w.sockets.ws p).fd) (sys.pending (w.sockets.ws p).fd) p k
          (record w { now = sys.now k }) a
    call-AreSessions sys (ws_write p) k w a =
        Returns-any After (Socket.on_write host (sys.send_to (w.sockets.ws p).fd) p k w.sockets) _
          (λ out. a)
