-- ===== src/Web/Socket/Rounds.antt =====
-- A round of WsConnection::onRead of src/server/ws_connection.cpp on a frame that a client has sent.
use chat_room.Common.{
  ℕ, suc, ◌+◌, ◌^◌, ◌≤◌, ◌<◌, Bool, true, false, [], ◌∷◌, ◌++◌, ◌==◌, ==_iff, if◌then◌else◌, ltb,
  ◌≡◌, refl, ap, sym, ◌∙◌, arith, length, length-append, drop, take-append-drop, append_assoc,
  drop-append, drop-all,
}
use chat_room.Common.Int.{pos}
use chat_room.Common.Text.{Bytes}
use chat_room.Common.Run.{Run, done, ◌>>=◌}
use chat_room.Buffer
use chat_room.Buffer.{Buffer, IsValid}
use chat_room.Buffer.View.{readable-length, view-consume}
use chat_room.Ws.Frame
use chat_room.Ws.Frame.{Frame, returned}
use chat_room.Ws.Frame.Decode.{client_frame, client_length, AreBytes}
use chat_room.Ws.Frame.Unmask.{mask_from}
use chat_room.Ws.Frame.RoundTrip.{try_decode-client_frame}
use chat_room.Web.World.{Web, Host, Sockets}
use chat_room.Web.Hub.{queue_bytes, close}
use chat_room.Web.Socket.{
  frame_loop, on_decoded, on_frame, decoded, consume_read, with_sockets, is_error,
}

client_length-nonempty : (n : ℕ) → 1 ≤ length (client_length n)
client_length-nonempty n = ground arith

-- A masked frame has at least two bytes.
length-client_frame : (f : Frame) (key : Bytes) → 2 ≤ length (client_frame f key)
length-client_frame f key = omega (
  arith,
  client_length-nonempty (length f.payload),
  length-append (client_length (length f.payload)) (key ++ mask_from key 0 f.payload),
)

-- The memory from the read position on begins with what is held.
peek-view :
    (b : Buffer) → Buffer.peek b ≡ Buffer.view b ++ drop (Buffer.readable_bytes b) (Buffer.peek b)
unfolding Buffer.view
peek-view b = sym (take-append-drop (Buffer.readable_bytes b) (Buffer.peek b))

is_error_pos : (n : ℕ) → 2 ≤ n → is_error (pos n) ≡ false
is_error_pos n h = ground (arith, h)

chosen_not : {A : Type 0} (b : Bool) (x y : A) → b ≡ false → (if b then x else y) ≡ y
chosen_not true x y h = absurd (ground (arith, h))
chosen_not false x y h = refl

on_decoded_pos :
    (host : Host) (again : Web → Run Web) (p m : ℕ) (f : Frame) (w : Web)
    → 2 ≤ m
    → on_decoded host again p (record { consumed = pos m; frame = f }) w ≡ (
        on_frame host p f (with_sockets w (consume_read p (pos m) w.sockets)) >>= λ u.
        if u.0 then again u.1 else done u.1)
unfolding on_decoded
on_decoded_pos host again p m f w h =
    chosen_not (is_error (pos m)) (done (with_sockets w (close host p w.sockets))) _
      (is_error_pos m h)

module _ (host : Host) (p n : ℕ) (f : Frame) (k0 k1 k2 k3 : ℕ) (rest : Bytes) (w : Web)
    (v : IsValid (w.sockets.ws p).read_buf)
    (held : Buffer.view (w.sockets.ws p).read_buf ≡ client_frame f (k0 ∷ k1 ∷ k2 ∷ k3 ∷ []) ++ rest)
    (op : f.opcode < 16) (bytes : AreBytes f.payload) (keys : AreBytes (k0 ∷ k1 ∷ k2 ∷ k3 ∷ []))
    (small : length f.payload + 14 < 2 ^ 31) where
  abbrev buf : Buffer
  buf = (w.sockets.ws p).read_buf

  abbrev frame : Bytes
  frame = client_frame f (k0 ∷ k1 ∷ k2 ∷ k3 ∷ [])

  -- The server with the frame taken out of the buffer.
  abbrev pub taken : Web
  taken = with_sockets w (consume_read p (pos (length frame)) w.sockets)

  readable : Buffer.readable_bytes buf ≡ length frame + length rest
  readable = readable-length buf v ∙ ap length held ∙ length-append frame rest

  decoded_lem :
      Frame.try_decode (Buffer.peek buf) (Buffer.readable_bytes buf)
      ≡ returned (record { consumed = pos (length frame); frame = f })
  decoded_lem =
      let behind = drop (Buffer.readable_bytes buf) (Buffer.peek buf) in
      let memory : Buffer.peek buf ≡ frame ++ (rest ++ behind) =
        peek-view buf ∙ ap (λ t. t ++ behind) held ∙ append_assoc frame rest behind in
      ap (λ m. Frame.try_decode m (Buffer.readable_bytes buf)) memory
      ∙ try_decode-client_frame f k0 k1 k2 k3 (rest ++ behind) (Buffer.readable_bytes buf) op bytes
          keys small (omega (arith, readable))

  same : (p == p) ≡ true
  same = (==_iff p p).1 refl

  taken_view : Buffer.view (taken.sockets.ws p).read_buf ≡ rest
  taken_view = rw same (
      view-consume buf v (length frame)
      ∙ ap (drop (length frame)) held
      ∙ drop-append (length frame) frame rest (omega arith)
      ∙ ap (λ t. t ++ rest) (drop-all (length frame) frame (omega arith)))

  enough : ltb (Buffer.readable_bytes buf) 2 ≡ false
  enough = ground (arith, readable, length-client_frame f (k0 ∷ k1 ∷ k2 ∷ k3 ∷ []))

  round_lem :
      frame_loop host (suc n) p w
      ≡ (on_frame host p f taken >>= λ u. if u.0 then frame_loop host n p u.1 else done u.1)
  unfolding frame_loop
  round_lem =
      chosen_not (ltb (Buffer.readable_bytes buf) 2) _ _ enough
      ∙ ap (λ o. decoded o >>= λ r. on_decoded host (frame_loop host n p) p r w) decoded_lem
      ∙ on_decoded_pos host (frame_loop host n p) p (length frame) f w
          (length-client_frame f (k0 ∷ k1 ∷ k2 ∷ k3 ∷ []))

  abbrev ponged : Web
  ponged = with_sockets taken (queue_bytes p (Frame.encode_pong f.payload) taken.sockets)

  ping_lem : f.opcode ≡ Frame.ping → on_frame host p f taken ≡ done (true, ponged)
  unfolding on_frame
  ping_lem e = rw e refl

  queued_lem :
      (more : Bytes) (s : Sockets)
      → ((queue_bytes p more s).ws p).write_buf ≡ Buffer.append more (s.ws p).write_buf
  unfolding queue_bytes
  queued_lem more s = ground (arith, ==_iff p p)

  unread_lem :
      (more : Bytes) (s : Sockets) → ((queue_bytes p more s).ws p).read_buf ≡ (s.ws p).read_buf
  unfolding queue_bytes
  unread_lem more s = ground (arith, ==_iff p p)

  -- The read buffer of a WebSocket holds a PING frame, as a client sends it with any masking key, and
  -- what follows it: the round of the read loop takes just the frame off the front and queues a PONG
  -- frame with the same payload behind what is still to be written, and the loop goes on with what
  -- follows. The buffer is well-formed; key and payload are bytes, the payload shorter than
  -- 2^31 - 14.
  pub frame_loop-ping :
      f.opcode ≡ Frame.ping
      → (u : Web) × (frame_loop host (suc n) p w ≡ frame_loop host n p u)
        × (Buffer.view (u.sockets.ws p).read_buf ≡ rest)
        × ((u.sockets.ws p).write_buf
            ≡ Buffer.append (Frame.encode_pong f.payload) (w.sockets.ws p).write_buf)
  frame_loop-ping e = (
    ponged,
    round_lem
        ∙ ap (λ r. r >>= λ (u : Bool × Web). if u.0 then frame_loop host n p u.1 else done u.1)
            (ping_lem e),
    ap Buffer.view (unread_lem (Frame.encode_pong f.payload) taken.sockets) ∙ taken_view,
    queued_lem (Frame.encode_pong f.payload) taken.sockets
        ∙ ap (Buffer.append (Frame.encode_pong f.payload)) (rw same refl),
  )
