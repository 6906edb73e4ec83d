-- ===== src/Tcp/Loops/Receive.antt =====
-- The loop of src/tcp/connection.cpp over recv ends, and what a connection can receive in its life.
-- `recv` is any function that writes no more bytes than it is offered room for, and `taken` counts
-- what it has written.
use chat_room.Common.{
  ℕ, zero, suc, ◌+◌, ◌-◌, ◌≤◌, ◌<◌, Bool, true, false, [], ◌∷◌, ==_iff, if◌then◌else◌, ◌≡◌, refl,
  ap, subst, ◌∙◌, arith, length,
}
use chat_room.Common.Text.{Bytes, is_empty}
use chat_room.Common.Run.{Run, done, thrown, no_fuel, Ends, Ends-bind, Ends-either}
use chat_room.Json.{Json}
use chat_room.Buffer
use chat_room.Buffer.{Buffer, IsValid}
use chat_room.Buffer.Space.{writable_lem}
use chat_room.Buffer.View.{write_bytes-IsValid, write_size, write_step}
use chat_room.Tcp.World.{World, Connection, set_conn}
use chat_room.Tcp.Handler.{close}
use chat_room.Tcp.Io.{Received, received, recv_again, recv_failed, read_loop, decode_loop, on_read}
use chat_room.Tcp.Loops.{IsSameStore, buf_of, close-IsSameStore, decode_loop-Ends}

-- What recv answers to an offer of `room` bytes, with the count before and after.
abbrev pub IsCounted : ℕ → ℕ → ℕ → Received → Type 0
IsCounted room before after (received bytes) =
    (length bytes ≤ room) × (after ≡ before + length bytes)
IsCounted room before after recv_again = after ≡ before
IsCounted room before after recv_failed = after ≡ before

-- Receiving keeps the size of the buffer, and what was taken is behind the old end of it.
pub record IsReceived (before after : ℕ) (b c : Buffer) : Type 0 where
  pub valid : IsValid c
  pub size : length c.storage ≡ length b.storage
  pub counted : after + b.write_pos ≡ before + c.write_pos

IsReceived-write_bytes :
    (before after : ℕ) (bytes : Bytes) (b : Buffer)
    → IsValid b
    → length bytes ≤ Buffer.writable_bytes b
    → after ≡ before + length bytes
    → IsReceived before after b (Buffer.write_bytes bytes b)
unfolding Buffer.write_bytes
IsReceived-write_bytes before after bytes b v room c =
    let fits : b.write_pos + length bytes ≤ length b.storage =
      omega (arith, room, writable_lem b v, v.inside) in
    record {
      valid = write_bytes-IsValid b v bytes fits;
      size = write_size b v bytes fits;
      counted = omega (arith, c, write_step b v bytes fits);
    }

writable-write_bytes :
    (bytes : Bytes) (b : Buffer)
    → IsValid b
    → length bytes ≤ Buffer.writable_bytes b
    → Buffer.writable_bytes (Buffer.write_bytes bytes b) ≡ Buffer.writable_bytes b - length bytes
writable-write_bytes bytes b v room =
    let s = IsReceived-write_bytes 0 (length bytes) bytes b v room (omega arith) in
    omega (
      arith,
      writable_lem (Buffer.write_bytes bytes b) s.valid,
      writable_lem b v,
      s.size,
      s.counted,
      v.inside,
    )

IsReceived-trans :
    {k l m : ℕ} {b c d : Buffer} → IsReceived k l b c → IsReceived l m c d → IsReceived k m b d
IsReceived-trans s t = record {
  valid = t.valid;
  size = t.size ∙ s.size;
  counted = omega (arith, s.counted, t.counted);
}

module _ {κ} {K : Type κ} (recv : K → ℕ → Received × K) (taken : K → ℕ)
    (law : (k : K) (room : ℕ)
      → IsCounted room (taken k) (taken (recv k room).1) (recv k room).0) where
  Reads : K → Connection → Bool × Connection × K → Type 0
  Reads k c r = IsReceived (taken k) (taken r.2) c.read_buf (r.1).read_buf

  -- One round, where the rest of the loop is known to end.
  round-Ends :
      (n now : ℕ) (k : K) (c : Connection)
      → IsValid c.read_buf
      → Buffer.writable_bytes c.read_buf < suc n
      → ((l : K) (d : Connection)
          → IsValid d.read_buf
          → Buffer.writable_bytes d.read_buf < n
          → Ends (Reads l d) (read_loop recv n now l d))
      → (t : Received) (l : K) → IsCounted (Buffer.writable_bytes c.read_buf) (taken k) (taken l) t
      → Ends (Reads k c) (elim t [
        | received bytes ↦
            (let rest =
                read_loop recv n now l (record c {
                  read_buf = Buffer.write_bytes bytes c.read_buf;
                  last_active = now;
                }) in
              if is_empty bytes then done (true, c, l) else rest)
        | recv_again ↦ done (false, c, l)
        | recv_failed ↦ done (true, c, l)
      ])
  unfolding Reads
  round-Ends n now k c v h rest (received []) l counted = record {
    valid = v;
    size = refl;
    counted = omega (arith, counted.1);
  }
  round-Ends n now k c v h rest (received (x ∷ xs)) l counted =
      let d = record c { read_buf = Buffer.write_bytes (x ∷ xs) c.read_buf; last_active = now } in
      let s : IsReceived (taken k) (taken l) c.read_buf d.read_buf =
        IsReceived-write_bytes (taken k) (taken l) (x ∷ xs) c.read_buf v counted.0 counted.1 in
      let less : Buffer.writable_bytes d.read_buf < n =
        omega (arith, writable-write_bytes (x ∷ xs) c.read_buf v counted.0, h, counted.0) in
      onward l d s (read_loop recv n now l d) (rest l d s.valid less)
    where
      onward :
          (l : K) (d : Connection)
          → IsReceived (taken k) (taken l) c.read_buf d.read_buf
          → (r : Run (Bool × Connection × K)) → Ends (Reads l d) r
          → Ends (Reads k c) r
      onward l d s (done r) t = IsReceived-trans s t
      onward l d s thrown t = tt
      onward l d s no_fuel t = t
  round-Ends n now k c v h rest recv_again l counted = record {
    valid = v;
    size = refl;
    counted = omega (arith, counted);
  }
  round-Ends n now k c v h rest recv_failed l counted = record {
    valid = v;
    size = refl;
    counted = omega (arith, counted);
  }

  -- The loop over recv ends: each round but the last fills some of the room in the buffer.
  read_loop-Ends :
      (n now : ℕ) (k : K) (c : Connection)
      → IsValid c.read_buf
      → Buffer.writable_bytes c.read_buf < n
      → Ends (Reads k c) (read_loop recv n now k c)
  unfolding read_loop
  read_loop-Ends zero now k c v h = omega (arith, h)
  read_loop-Ends (suc n) now k c v h =
      let room = Buffer.writable_bytes c.read_buf in
      round-Ends n now k c v h (λ l d. read_loop-Ends n now l d) (recv k room).0 (recv k room).1
        (law k room)

  module _ (json : Json) (p : ℕ) where
    finish : Bool × Connection × K → World → Run World
    finish end w =
        if end.0
        then close json p (set_conn p end.1 w)
        else decode_loop json (suc (Buffer.readable_bytes (end.1).read_buf)) p (set_conn p end.1 w)

    set_conn_buf : (c : Connection) (w : World) → buf_of p (set_conn p c w) ≡ c.read_buf
    set_conn_buf c w = ground (arith, ==_iff p p)

    finish-Ends :
        (end : Bool × Connection × K) (w : World)
        → IsValid (end.1).read_buf
        → Ends (λ u. IsSameStore (end.1).read_buf (buf_of p u)) (finish end w)
    unfolding finish
    finish-Ends end w v =
        let e = set_conn_buf end.1 w in
        let v2 : IsValid (buf_of p (set_conn p end.1 w)) = rw e v in
        subst (λ b. Ends (λ u. IsSameStore b (buf_of p u)) (finish end w)) e
          (Ends-either (λ u. IsSameStore (buf_of p (set_conn p end.1 w)) (buf_of p u)) end.0 _ _
            (close-IsSameStore json p (set_conn p end.1 w) v2)
            (decode_loop-Ends json p _ (set_conn p end.1 w) v2 (rw e (omega arith))))

    -- onRead ends, with a result or with an exception out of a handler, wherever recv writes no
    -- more bytes than it is offered room for. It leaves the read buffer as large as it was, and the
    -- end of the received bytes has moved by the number of bytes that recv has written.
    pub on_read-Ends :
        (k : K) (w : World)
        → IsValid (buf_of p w)
        → Ends
            (λ r. IsReceived (taken k) (taken r.1) (buf_of p w) (buf_of p r.0))
            (on_read json recv p k w)
    unfolding on_read finish Reads
    on_read-Ends k w v =
        Ends-bind (Reads k (w.heap p))
          (λ r. IsReceived (taken k) (taken r.1) (buf_of p w) (buf_of p r.0))
          (read_loop recv (suc (Buffer.writable_bytes (buf_of p w))) w.now k (w.heap p)) _
          (read_loop-Ends _ w.now k (w.heap p) v (omega arith))
          (λ end s.
            Ends-bind (λ u. IsSameStore (end.1).read_buf (buf_of p u))
              (λ r. IsReceived (taken k) (taken r.1) (buf_of p w) (buf_of p r.0)) (finish end w)
              (λ u. done (u, end.2)) (finish-Ends end w s.valid)
              (λ u t. record {
                valid = t.valid;
                size = ap length t.storage ∙ s.size;
                counted = omega (arith, s.counted, t.write_pos);
              }))

    -- All that a connection has received since its buffer was empty, when `start` bytes had been
    -- taken before it, stands in its buffer of 1024 bytes.
    pub record IsAccounted (start : ℕ) (k : K) (w : World) : Type 0 where
      pub valid : IsValid (buf_of p w)
      pub size : length (buf_of p w).storage ≡ 1024
      pub all_kept : taken k ≡ start + (buf_of p w).write_pos

    -- Where all that recv has written for a connection, from `start` on, stands in its buffer of
    -- 1024 bytes, onRead ends with that still so, or with an exception; so recv has then written at
    -- most 1024 bytes for it in all, whatever packets were decoded and consumed.
    pub on_read-IsAccounted :
        (start : ℕ) (k : K) (w : World)
        → IsAccounted start k w
        → Ends
            (λ r. IsAccounted start r.1 r.0 × (taken r.1 ≤ start + 1024))
            (on_read json recv p k w)
    on_read-IsAccounted start k w a = after (on_read json recv p k w) (on_read-Ends k w a.valid)
      where
        after :
            (r : Run (World × K))
            → Ends (λ r. IsReceived (taken k) (taken r.1) (buf_of p w) (buf_of p r.0)) r
            → Ends (λ r. IsAccounted start r.1 r.0 × (taken r.1 ≤ start + 1024)) r
        after (done (u, l)) s =
            let counts : taken l ≡ start + (buf_of p u).write_pos =
              omega (arith, s.counted, a.all_kept) in
            (
              record { valid = s.valid; size = s.size ∙ a.size; all_kept = counts },
              omega (arith, counts, s.valid.inside, s.size, a.size),
            )
        after thrown s = s
        after no_fuel s = s
