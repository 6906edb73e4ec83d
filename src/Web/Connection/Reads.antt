-- ===== src/Web/Connection/Reads.antt =====
-- HttpConnection::onRead of src/server/http_connection.cpp ends: its loops have enough fuel.
use chat_room.Common.{
  not, ◌&&◌, ℕ, zero, suc, ◌+◌, ◌^◌, ◌≤◌, ◌<◌, Bool, true, false, some, [], ◌++◌, ==_iff,
  if◌then◌else◌, ◌≡◌, ap, sym, subst, ◌∙◌, inl, inr, Bool-cases, Option-cases, arith, length,
  length-append,
}
use chat_room.Common.Text.{Bytes}
use chat_room.Common.Dict
use chat_room.Common.Dict.{Dict}
use chat_room.Common.Keys.{nat_key}
use chat_room.Common.Run.{done, ◌>>=◌, Ends, Ends-bind, Ends-either}
use chat_room.Buffer
use chat_room.Buffer.{Buffer, IsValid}
use chat_room.Buffer.View.{readable-length}
use chat_room.Http.Request
use chat_room.Http.Request.{HttpRequest, crlf}
use chat_room.Http.Request.Parse.{Keeps, parse-Keeps}
use chat_room.Json.{Json}
use chat_room.Tcp.Io.{Received}
use chat_room.Web.World.{fd_of, Web, Host, Spot, is_active, has_hub, Sockets}
use chat_room.Web.Hub.{subscriber, adopt_connection}
use chat_room.Web.Io.{receive}
use chat_room.Web.Io.Receive.{IsReceived, IsRead, receive-IsRead}
use chat_room.Web.Routes.{Handler, register_http_routes}
use chat_room.Web.Routes.Quiet.{Quiet, EndsQuietly, dispatch-EndsQuietly}
use chat_room.Web.Server.{dispatch}
use chat_room.Web.Connection.{
  close, shut, on_http_close, erase_conn, close_own_fd, is_fd, parse_loop, on_read, set_read_buf,
}

-- The hub is subscribed to the room.
abbrev pub HasHub : Json → Web → Type 0
HasHub json w = w.room.on_message ≡ some (subscriber json)

-- A request that parse takes is at least an empty line.
taken_size :
    (snap : Bytes) (r : HttpRequest) (b : Buffer)
    → Keeps snap (true, r, b)
    → length (Buffer.view b) + 4 ≤ length snap
taken_size snap r b k =
    let e = ap length k.1.1 in
    let s = length-append (k.1.0 ++ (crlf ++ crlf) ++ r.body) (Buffer.view b) in
    let t = length-append (k.1.0 ++ (crlf ++ crlf)) r.body in
    let u = length-append k.1.0 (crlf ++ crlf) in omega (arith, e, s, t, u)

adopt_connection-Ends :
    (spot : Spot) (fd : ℕ) (user : Bytes) (s : Sockets)
    → Ends (λ t. Unit {0}) (adopt_connection spot fd user s)
unfolding adopt_connection
adopt_connection-Ends spot fd user s = elim (Bool-cases spot.added) [
  | inl e ↦ rw (adopt_connection, e) tt
  | inr e ↦ rw (adopt_connection, e) tt
]

module _ (host : Host) (p : ℕ) where
  erase_conn-HasHub :
      (fd : ℕ) (w : Web) → HasHub host.json w → HasHub host.json (erase_conn host fd w)
  unfolding erase_conn
  erase_conn-HasHub fd w h = elim (Option-cases (Dict.lookup fd w.conns)) [
    | inl e ↦ rw (erase_conn, e) h
    | inr (q, e) ↦ rw (erase_conn, e) h
  ]

  close_own_fd-HasHub : (w : Web) → HasHub host.json w → HasHub host.json (close_own_fd p w)
  unfolding close_own_fd
  close_own_fd-HasHub w h = elim (Bool-cases (not (w.http p).upgraded && is_fd (w.http p).fd)) [
    | inl e ↦ rw (close_own_fd, e) h
    | inr e ↦ rw (close_own_fd, e) h
  ]

  on_http_close-Ends :
      (spot : Spot) (w : Web)
      → HasHub host.json w
      → Ends (HasHub host.json) (on_http_close host spot p w)
  unfolding on_http_close
  on_http_close-Ends spot w h = elim (Bool-cases (w.http p).upgraded) [
    | inr e ↦ rw (on_http_close, e) (erase_conn-HasHub (fd_of (w.http p)) w h)
    | inl e ↦ elim (Bool-cases (has_hub w.deps)) [
      | inr f ↦ rw (on_http_close, e, f) (erase_conn-HasHub (fd_of (w.http p)) w h)
      | inl f ↦
          rw (on_http_close, e, f)
            (Ends-bind (λ s. Unit {0}) (HasHub host.json)
              (adopt_connection spot (fd_of (w.http p)) (w.http p).upgraded_user w.sockets) _
              (adopt_connection-Ends spot (fd_of (w.http p)) (w.http p).upgraded_user w.sockets)
              (λ s u. erase_conn-HasHub (fd_of (w.http p)) (record w { sockets = s }) h))
    ]
  ]

  close-Ends :
      (spot : Spot) (w : Web) → HasHub host.json w → Ends (HasHub host.json) (close host spot p w)
  unfolding close
  close-Ends spot w h = elim (Bool-cases (is_active (w.http p).state)) [
    | inl e ↦
        rw (close, e)
          (Ends-bind (HasHub host.json) (HasHub host.json) (on_http_close host spot p (shut p w)) _
            (on_http_close-Ends spot (shut p w) h) (λ v g. close_own_fd-HasHub v g))
    | inr e ↦ rw (close, e) h
  ]

  parse_loop-Ends :
      (h : Handler)
      → EndsQuietly host.json h
      → (n : ℕ) (w : Web) → HasHub host.json w
      → IsValid (w.http p).read_buf
      → length (Buffer.view (w.http p).read_buf) ≤ 2 ^ 57
      → length (Buffer.view (w.http p).read_buf) < n
      → Ends (HasHub host.json) (parse_loop h n p w)
  unfolding parse_loop
  parse_loop-Ends h quiet zero w hub v small less = omega (arith, less)
  parse_loop-Ends h quiet (suc n) w hub v small less =
      round (Request.parse (w.http p).read_buf Request.init).0
        (Request.parse (w.http p).read_buf Request.init).1
        (Request.parse (w.http p).read_buf Request.init).2
        (parse-Keeps (w.http p).read_buf Request.init v small)
        (λ u hub v small less. parse_loop-Ends h quiet n u hub v small less)
    where
      round :
          (b : Bool) (r : HttpRequest) (buf : Buffer)
          → Keeps (Buffer.view (w.http p).read_buf) (b, r, buf)
          → ((u : Web)
              → HasHub host.json u
              → IsValid (u.http p).read_buf
              → length (Buffer.view (u.http p).read_buf) ≤ 2 ^ 57
              → length (Buffer.view (u.http p).read_buf) < n
              → Ends (HasHub host.json) (parse_loop h n p u))
          → Ends (HasHub host.json) (
              if b
              then (h r p (set_read_buf p buf w) >>= λ u. parse_loop h n p u)
              else done (set_read_buf p buf w))
      round false r buf k next = hub
      round true r buf k next =
          let read = set_read_buf p buf w in
          let same : (read.http p).read_buf ≡ buf = ground (arith, ==_iff p p) in
          let size : length (Buffer.view buf) + 4 ≤ length (Buffer.view (w.http p).read_buf) =
            taken_size (Buffer.view (w.http p).read_buf) r buf k in
          Ends-bind (Quiet p read) (HasHub host.json) (h r p read) _ (quiet r p read hub) (λ u q.
            let kept : (u.http p).read_buf ≡ buf = q.read_buf ∙ same in
            next u (q.on_message ∙ hub) (subst IsValid (sym kept) k.0)
              (rw kept (omega (arith, size, small))) (rw kept (omega (arith, size, less))))

  module _ {κ} {K : Type κ} (recv : K → ℕ → Received × K) (stream : K → Bytes)
      (law : (k : K) (n : ℕ) → IsReceived (stream k) (stream (recv k n).1) (recv k n).0) where
    abbrev table : Dict Bytes Handler
    table = register_http_routes host.json []

    abbrev waiting : K → ℕ
    waiting k = length (stream k)

    -- The callback that reads requests and dispatches them ends, with the hub still subscribed to the
    -- room, unless an exception leaves it: if the hub is subscribed, the buffer is well-formed, and
    -- what it holds and what the kernel has are at most 2^57 bytes. recv takes bytes from the front
    -- of what the kernel has.
    pub on_read-HasHub :
        (spot : Spot) (k : K) (w : Web)
        → HasHub host.json w
        → IsValid (w.http p).read_buf
        → length (Buffer.view (w.http p).read_buf) + length (stream k) ≤ 2 ^ 57
        → Ends
            (λ r. HasHub host.json r.0)
            (on_read host (dispatch host table) recv waiting spot p k w)
    unfolding on_read
    on_read-HasHub spot k w hub v small =
        Ends-bind (IsRead recv stream law k (w.http p).read_buf) (λ r. HasHub host.json r.0)
          (receive recv (suc (waiting k)) k (w.http p).read_buf) _
          (receive-IsRead recv stream law (suc (waiting k)) k (w.http p).read_buf v small
            (omega arith))
          (λ got g.
            let read = set_read_buf p got.1 w in
            let same : (read.http p).read_buf ≡ got.1 = ground (arith, ==_iff p p) in
            let total : length (Buffer.view got.1) + length (stream got.2)
                ≡ length (Buffer.view (w.http p).read_buf) + length (stream k) =
              sym (length-append (Buffer.view got.1) (stream got.2))
              ∙ ap length g.1
              ∙ length-append (Buffer.view (w.http p).read_buf) (stream k) in
            let loop =
              parse_loop (dispatch host table) (suc (Buffer.readable_bytes got.1)) p read in
            Ends-bind (HasHub host.json) (λ r. HasHub host.json r.0)
              (if got.0 then close host spot p read else loop) _
              (Ends-either (HasHub host.json) got.0 (close host spot p read) loop
                (close-Ends spot read hub)
                (parse_loop-Ends (dispatch host table) (dispatch-EndsQuietly host)
                  (suc (Buffer.readable_bytes got.1)) read hub (subst IsValid (sym same) g.0)
                  (rw same (omega (arith, total, small)))
                  (rw (same, readable-length got.1 g.0) (omega arith))))
              (λ u h. h))
