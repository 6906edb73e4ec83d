-- ===== src/Web/Sessions/Connection.antt =====
-- src/server/http_connection.cpp keeps the agreement of tokens and users.
use chat_room.Common.{not, ◌&&◌, ℕ, zero, suc, inl, inr, Bool-cases, Option-cases}
use chat_room.Common.Dict
use chat_room.Common.Dict.{Dict}
use chat_room.Common.Keys.{text_key, nat_key}
use chat_room.Common.Run.{Returns, Returns-bind, Returns-any, Returns-either}
use chat_room.Http.Request
use chat_room.Http.Request.{HttpRequest}
use chat_room.Tcp.Io.{WriteEnd, emptied, would_block, broken}
use chat_room.Web.World.{fd_of, Web, Host, Spot, is_active, has_hub}
use chat_room.Web.Connection
use chat_room.Web.Hub.{adopt_connection}
use chat_room.Web.Routes.{Handler}
use chat_room.Web.Sessions.{AreSessions}
use chat_room.Web.Sessions.Dispatch.{Keeps}

module _ (host : Host) where
  pub erase_conn-AreSessions :
      (fd : ℕ) (w : Web) → AreSessions w → AreSessions (Connection.erase_conn host fd w)
  unfolding Connection.erase_conn
  erase_conn-AreSessions fd w a = elim (Option-cases (Dict.lookup fd w.conns)) [
    | inl e ↦ rw (Connection.erase_conn, e) a
    | inr (q, e) ↦ rw (Connection.erase_conn, e) a
  ]

  pub on_http_close-AreSessions :
      (spot : Spot) (p : ℕ) (w : Web)
      → AreSessions w
      → Returns AreSessions (Connection.on_http_close host spot p w)
  unfolding Connection.on_http_close
  on_http_close-AreSessions spot p w a =
      Returns-either AreSessions (w.http p).upgraded _ _
        (Returns-either AreSessions (has_hub w.deps) _ _
          (Returns-any AreSessions
            (adopt_connection spot (fd_of (w.http p)) (w.http p).upgraded_user w.sockets) _
            (λ s. erase_conn-AreSessions (fd_of (w.http p)) _ a))
          (erase_conn-AreSessions (fd_of (w.http p)) w a))
        (erase_conn-AreSessions (fd_of (w.http p)) w a)

  pub close_own_fd-AreSessions :
      (p : ℕ) (w : Web) → AreSessions w → AreSessions (Connection.close_own_fd p w)
  unfolding Connection.close_own_fd
  close_own_fd-AreSessions p w a =
      elim (Bool-cases (not (w.http p).upgraded && Connection.is_fd (w.http p).fd)) [
        | inl e ↦ rw (Connection.close_own_fd, e) a
        | inr e ↦ rw (Connection.close_own_fd, e) a
      ]

  pub close-AreSessions :
      (spot : Spot) (p : ℕ) (w : Web)
      → AreSessions w
      → Returns AreSessions (Connection.close host spot p w)
  unfolding Connection.close
  close-AreSessions spot p w a =
      Returns-either AreSessions (is_active (w.http p).state) _ _
        (Returns-bind AreSessions AreSessions _ _
          (on_http_close-AreSessions spot p (Connection.shut p w) a)
          (λ v b. close_own_fd-AreSessions p v b))
        a

  pub parse_loop-AreSessions :
      (h : Handler)
      → Keeps h
      → (n p : ℕ) (w : Web) → AreSessions w
      → Returns AreSessions (Connection.parse_loop h n p w)
  unfolding Connection.parse_loop
  parse_loop-AreSessions h k zero p w a = tt
  parse_loop-AreSessions h k (suc n) p w a =
      let parsed = Request.parse (w.http p).read_buf Request.init in
      Returns-either AreSessions parsed.0 _ _
        (Returns-bind AreSessions AreSessions _ _ (k parsed.1 p _ a)
          (λ v b. parse_loop-AreSessions h k n p v b))
        a

  pub after_write-AreSessions :
      (spot : Spot) (end : WriteEnd) (p : ℕ) (w : Web)
      → AreSessions w
      → Returns AreSessions (Connection.after_write host spot end p w)
  unfolding Connection.after_write
  after_write-AreSessions spot emptied p w a =
      Returns-either AreSessions (w.http p).close_after_write _ _ (close-AreSessions spot p w a) a
  after_write-AreSessions spot would_block p w a = a
  after_write-AreSessions spot broken p w a = close-AreSessions spot p w a
