-- ===== src/Web/Socket/Reads.antt =====
-- WsConnection::onRead of src/server/ws_connection.cpp ends: its loops have enough fuel.
use chat_room.Common.{
  ℕ, zero, suc, ◌+◌, ◌^◌, ◌≤◌, ◌<◌, Bool, true, false, Option, none, some, [], ◌∷◌, ==_iff, ◌==◌,
  if◌then◌else◌, ltb, ◌≡◌, refl, ap, sym, subst, ◌∙◌, inl, inr, Bool-cases, Option-cases, arith,
  length, length-drop,
}
use chat_room.Common.Text.{Bytes}
use chat_room.Common.Dict.{Dict}
use chat_room.Common.Int.{ℤ, pos, negsuc, to_size}
use chat_room.Common.Run.{Run, done, thrown, no_fuel, ◌>>=◌, or_throw, Ends, Ends-bind, Ends-either}
use chat_room.Buffer
use chat_room.Buffer.{Buffer, IsValid}
use chat_room.Buffer.View.{readable-length, consume-IsValid, view-consume}
use chat_room.Room.{Message, notify, add_message}
use chat_room.Tcp.Io.{Received}
use chat_room.Ws.Frame
use chat_room.Ws.Frame.{Outcome, returned, out_of_bounds, length_error}
use chat_room.Ws.Frame.Consumed.{Yields, IsInt, try_decode-IsInt}
use chat_room.Web.World.{Web, Host, Sockets}
use chat_room.Web.Hub.{
  queue_bytes, send_text, push_to, send_each, broadcast, to_ws_json, subscriber, on_text,
  chat_message, add_message_caught, tell_room, caught_in, close,
}
use chat_room.Web.Io.{receive}
use chat_room.Web.Io.Receive.{IsReceived, IsRead, receive-IsRead}
use chat_room.Web.Connection.Reads.{HasHub}
use chat_room.Web.Socket.{
  with_sockets, on_close_frame, on_frame, decoded, is_partial, is_error, consume_read, on_decoded,
  frame_loop, set_read_buf, on_read,
}

queue_bytes-read_buf :
    (p q : ℕ) (bytes : Bytes) (s : Sockets)
    → ((queue_bytes p bytes s).ws q).read_buf ≡ (s.ws q).read_buf
unfolding queue_bytes
queue_bytes-read_buf p q bytes s = ground (arith, ==_iff p q)

push_to-read_buf :
    (p q : ℕ) (text : Bytes) (s : Sockets) → ((push_to p text s).ws q).read_buf ≡ (s.ws q).read_buf
unfolding push_to send_text queue_bytes
push_to-read_buf p q text s = ground (arith, ==_iff p q)

send_each-read_buf :
    (q : ℕ) (l : Dict ℕ (Unit {0})) (text : Bytes) (s : Sockets)
    → ((send_each l text s).ws q).read_buf ≡ (s.ws q).read_buf
unfolding send_each
send_each-read_buf q [] text s = refl
send_each-read_buf q ((p, u) ∷ rest) text s =
    send_each-read_buf q rest text (push_to p text s) ∙ push_to-read_buf p q text s

-- A step that leaves what the WebSocket at `p` has to read, and the subscriber of the room.
record Steady (p : ℕ) (w v : Web) : Type 0 where
  read_buf : (v.sockets.ws p).read_buf ≡ (w.sockets.ws p).read_buf
  on_message : v.room.on_message ≡ w.room.on_message

module _ (host : Host) (p : ℕ) where
  -- What a socket has to read is as before.
  abbrev Unread : Sockets → Sockets → Type 0
  Unread s t = (t.ws p).read_buf ≡ (s.ws p).read_buf

  broadcast-Unread : (m : Message) (s : Sockets) → Ends (Unread s) (broadcast host.json m s)
  unfolding broadcast
  broadcast-Unread m s = printed (to_ws_json host.json m)
    where
      printed :
          (o : Option Bytes)
          → Ends (Unread s) (or_throw o >>= λ text. done (send_each s.clients text s))
      printed none = tt
      printed (some text) = send_each-read_buf p s.clients text s

  told-Unread :
      (on_message : Option (Message → Run Sockets → Run Sockets)) (m : Message) (s : Sockets)
      → on_message ≡ some (subscriber host.json)
      → Ends (Unread s) (notify on_message m (done s))
  told-Unread on_message m s e = rw e (broadcast-Unread m s)

  add_message_caught-Steady :
      (m : Message) (w : Web) → HasHub host.json w → Ends (Steady p w) (add_message_caught m w)
  unfolding add_message_caught add_message
  add_message_caught-Steady m w hub =
      caught (tell_room m w).1 (told-Unread w.room.on_message m w.sockets hub)
    where
      caught :
          (t : Run Sockets)
          → Ends (Unread w.sockets) t
          → Ends (Steady p w) (caught_in w (tell_room m w).0 t)
      caught (done s) e = record { read_buf = e; on_message = refl }
      caught thrown e = record { read_buf = refl; on_message = refl }
      caught no_fuel e = e

  on_text-Steady :
      (payload : Bytes) (w : Web)
      → HasHub host.json w
      → Ends (Steady p w) (on_text host.json p payload w)
  unfolding on_text
  on_text-Steady payload w hub = elim (Option-cases (host.json.parse payload)) [
    | inl e ↦ rw (on_text, e) (record { read_buf = refl; on_message = refl })
    | inr (j, e) ↦ elim (Option-cases (chat_message host.json (w.sockets.ws p).username j w)) [
      | inl f ↦ rw (on_text, e, f) (record { read_buf = refl; on_message = refl })
      | inr (m, f) ↦ rw (on_text, e, f) (add_message_caught-Steady m w hub)
    ]
  ]

  -- Whether the loop goes on: then what is to be read is as before.
  abbrev Onward : Web → Bool × Web → Type 0
  Onward w (true, v) = Steady p w v
  Onward w (false, v) = HasHub host.json v

  on_frame-Onward :
      (f : Frame.Frame) (w : Web) → HasHub host.json w → Ends (Onward w) (on_frame host p f w)
  unfolding on_frame on_close_frame
  on_frame-Onward f w hub =
      Ends-either (Onward w) (f.opcode == Frame.text) _ _
        (Ends-bind (Steady p w) (Onward w) (on_text host.json p f.payload w) _
          (on_text-Steady f.payload w hub) (λ v s. s))
        (Ends-either (Onward w) (f.opcode == Frame.ping) _ _
          (record {
            read_buf = queue_bytes-read_buf p p (Frame.encode_pong f.payload) w.sockets;
            on_message = refl;
          })
          (Ends-either (Onward w) (f.opcode == Frame.pong) _ _
            (record { read_buf = refl; on_message = refl })
            (Ends-either (Onward w) (f.opcode == Frame.binary) _ _ hub (
              Ends-either (Onward w) (f.opcode == Frame.close) _ _
                (record {
                  read_buf =
                      ground (arith, ==_iff p p)
                      ∙ queue_bytes-read_buf p p Frame.encode_close w.sockets;
                  on_message = refl;
                })
                hub))))

  to_size-nonempty : (z : ℤ) → IsInt z → is_partial z ≡ false → is_error z ≡ false → 1 ≤ to_size z
  to_size-nonempty (pos n) i h e = ground (arith, e)
  to_size-nonempty (negsuc n) i h e = omega (arith, i)

  consumed_buf :
      (z : ℤ) (s : Sockets)
      → ((consume_read p z s).ws p).read_buf ≡ Buffer.consume (to_size z) (s.ws p).read_buf
  consumed_buf z s = ground (arith, ==_iff p p)

  abbrev Held : Web → Buffer
  Held w = (w.sockets.ws p).read_buf

  on_decoded-Ends :
      (n : ℕ) (r : Frame.DecodeResult) (w : Web)
      → HasHub host.json w
      → IsValid (w.sockets.ws p).read_buf
      → 1 ≤ length (Buffer.view (w.sockets.ws p).read_buf)
      → length (Buffer.view (w.sockets.ws p).read_buf) < suc n
      → IsInt r.consumed
      → ((u : Web)
          → HasHub host.json u
          → IsValid (u.sockets.ws p).read_buf
          → length (Buffer.view (u.sockets.ws p).read_buf) < n
          → Ends (HasHub host.json) (frame_loop host n p u))
      → Ends (HasHub host.json) (on_decoded host (frame_loop host n p) p r w)
  unfolding on_decoded
  on_decoded-Ends n r w hub v some_bytes less int next = elim (Bool-cases (is_partial r.consumed)) [
    | inl e ↦ rw (on_decoded, e) hub
    | inr e ↦ elim (Bool-cases (is_error r.consumed)) [
      | inl f ↦ rw (on_decoded, e, f) hub
      | inr f ↦
          rw (on_decoded, e, f)
            (Ends-bind (Onward taken) (HasHub host.json) (on_frame host p r.frame taken) _
              (on_frame-Onward r.frame taken hub)
              (λ t o. onward (to_size-nonempty r.consumed int e f) t.0 t.1 o))
    ]
  ]
    where
      taken : Web
      taken = with_sockets w (consume_read p r.consumed w.sockets)

      onward :
          1 ≤ to_size r.consumed
          → (b : Bool) (u : Web) → Onward taken (b, u)
          → Ends (HasHub host.json) (if b then frame_loop host n p u else done u)
      onward one false u o = o
      onward one true u o =
          let kept = o.read_buf ∙ consumed_buf r.consumed w.sockets in
          let size =
            ap length (view-consume (w.sockets.ws p).read_buf v (to_size r.consumed))
            ∙ length-drop (to_size r.consumed) (Buffer.view (w.sockets.ws p).read_buf) in
          next u (o.on_message ∙ hub)
            (subst IsValid (sym kept)
              (consume-IsValid (w.sockets.ws p).read_buf v (to_size r.consumed)))
            (rw kept (omega (arith, size, less, some_bytes, one)))

  frame_loop-Ends :
      (n : ℕ) (w : Web)
      → HasHub host.json w
      → IsValid (w.sockets.ws p).read_buf
      → length (Buffer.view (w.sockets.ws p).read_buf) < n
      → Ends (HasHub host.json) (frame_loop host n p w)
  unfolding frame_loop
  frame_loop-Ends zero w hub v less = omega (arith, less)
  frame_loop-Ends (suc n) w hub v less =
      let b = (w.sockets.ws p).read_buf in
      elim (Bool-cases (ltb (Buffer.readable_bytes b) 2)) [
        | inl e ↦ rw (frame_loop, e) hub
        | inr e ↦
            rw (frame_loop, e)
              (round (ground (arith, e, readable-length b v))
                (Frame.try_decode (Buffer.peek b) (Buffer.readable_bytes b))
                (try_decode-IsInt (Buffer.peek b) (Buffer.readable_bytes b))
                (λ u hub v less. frame_loop-Ends n u hub v less))
      ]
    where
      round :
          1 ≤ length (Buffer.view (w.sockets.ws p).read_buf)
          → (o : Outcome Frame.DecodeResult) → Yields (λ r. IsInt r.consumed) o
          → ((u : Web)
              → HasHub host.json u
              → IsValid (u.sockets.ws p).read_buf
              → length (Buffer.view (u.sockets.ws p).read_buf) < n
              → Ends (HasHub host.json) (frame_loop host n p u))
          → Ends (HasHub host.json) (decoded o >>= λ r. on_decoded host (frame_loop host n p) p r w)
      round some_bytes (returned r) y next = on_decoded-Ends n r w hub v some_bytes less y next
      round some_bytes out_of_bounds y next = tt
      round some_bytes length_error y next = tt

  module _ {κ} {K : Type κ} (recv : K → ℕ → Received × K) (stream : K → Bytes)
      (law : (k : K) (n : ℕ) → IsReceived (stream k) (stream (recv k n).1) (recv k n).0) where
    abbrev waiting : K → ℕ
    waiting k = length (stream k)

    -- The callback that reads frames from a WebSocket and acts on them ends, with the hub still
    -- subscribed to the room, unless an exception or a read behind the memory of the buffer ends it:
    -- if the hub is subscribed, the buffer is well-formed, and what it holds and what the kernel has
    -- are at most 2^57 bytes. recv takes bytes from the front of what the kernel has.
    pub ws_read-HasHub :
        (k : K) (w : Web)
        → HasHub host.json w
        → IsValid (w.sockets.ws p).read_buf
        → length (Buffer.view (w.sockets.ws p).read_buf) + length (stream k) ≤ 2 ^ 57
        → Ends (λ r. HasHub host.json r.0) (on_read host recv waiting p k w)
    unfolding on_read
    ws_read-HasHub k w hub v small =
        Ends-bind (IsRead recv stream law k (w.sockets.ws p).read_buf) (λ r. HasHub host.json r.0)
          (receive recv (suc (waiting k)) k (w.sockets.ws p).read_buf) _
          (receive-IsRead recv stream law (suc (waiting k)) k (w.sockets.ws p).read_buf v small
            (omega arith))
          (λ got g.
            let read = with_sockets w (set_read_buf p got.1 w.sockets) in
            let same : (read.sockets.ws p).read_buf ≡ got.1 = ground (arith, ==_iff p p) in
            let loop = frame_loop host (suc (Buffer.readable_bytes got.1)) p read in
            let shut : Run Web = done (with_sockets read (close host p read.sockets)) in
            Ends-bind (HasHub host.json) (λ r. HasHub host.json r.0) (if got.0 then shut else loop)
              _
              (Ends-either (HasHub host.json) got.0 shut loop hub (
                frame_loop-Ends (suc (Buffer.readable_bytes got.1)) read hub
                  (subst IsValid (sym same) g.0)
                  (rw (same, readable-length got.1 g.0) (omega arith))))
              (λ u h. h))
