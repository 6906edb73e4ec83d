-- ===== src/Tcp/Sessions/Callbacks.antt =====
-- The callbacks of src/tcp/main.cpp keep the users and the connections' states in agreement.
use chat_room.Common.{
  ℕ, zero, suc, ◌+◌, Bool, true, false, List, [], ◌∷◌, ◌==◌, ==_iff, if◌then◌else◌, ◌≡◌, refl, inl,
  inr, Bool-cases, arith,
}
use chat_room.Common.Text.{Bytes}
use chat_room.Common.Int.{to_size}
use chat_room.Common.Run.{Run, done, ◌>>=◌, Returns, Returns-bind, Returns-either}
use chat_room.Buffer
use chat_room.Json.{Json}
use chat_room.Packet
use chat_room.Packet.{Packet}
use chat_room.Tcp.World.{
  World, Connection, Callback, accept_all, read_from, write_to, tick_all, set_conn, new_connection,
  is_authenticated,
}
use chat_room.Tcp.Io.{
  Received, Sent, WriteEnd, emptied, would_block, broken, read_loop, decode_loop, on_read,
  write_loop, rest_writing, after_write, on_write, silent, close_each, tick, accept_one,
  consume_read, is_zero,
}
use chat_room.Tcp.Handler.{on_packet, close}
use chat_room.Tcp.Main.{
  Accepted, accepted, accept_again, accept_failed, accept_loop, timeout_sec, Kernel, call,
}
use chat_room.Tcp.Sessions.{IsConsistent, IsConsistent-same}
use chat_room.Tcp.Sessions.Keeps.{close-IsConsistent}
use chat_room.Tcp.Sessions.Packets.{on_packet-IsConsistent}
use chat_room.Tcp.Sessions.IoLoops.{
  IsSameSession, set_conn-IsConsistent, read_loop-IsSameSession, write_loop-IsSameSession,
}

-- No connection is logged in where accept allocates a new one.
abbrev pub IsFree : World → Accepted → Type 0
IsFree w (accepted fd p added) = is_authenticated (w.heap p).state ≡ false
IsFree w accept_again = Unit {0}
IsFree w accept_failed = Unit {0}

module _ (json : Json) where
  decode_loop-IsConsistent :
      (n p : ℕ) (w : World) → IsConsistent w → Returns IsConsistent (decode_loop json n p w)
  unfolding decode_loop
  decode_loop-IsConsistent zero p w a = tt
  decode_loop-IsConsistent (suc n) p w a =
      let b = (w.heap p).read_buf in
      let r = Packet.decode (Buffer.peek b) (Buffer.readable_bytes b) in
      let eaten = consume_read p (to_size r.consumed) w in
      elim (Bool-cases (Buffer.readable_bytes b == 0)) [
        | inl e ↦ rw (decode_loop, e) a
        | inr e ↦ elim (Bool-cases r.is_ok) [
          | inl f ↦
              rw (decode_loop, e, f)
                (Returns-bind IsConsistent IsConsistent (on_packet json p r.packet eaten) _
                  (on_packet-IsConsistent json p r.packet eaten
                    (set_conn-IsConsistent p _ w (refl, refl) a))
                  (λ v c. decode_loop-IsConsistent n p v c))
          | inr f ↦ elim (Bool-cases (is_zero r.consumed)) [
            | inl g ↦ rw (decode_loop, e, f, g) (close-IsConsistent json p w a)
            | inr g ↦ rw (decode_loop, e, f, g) a
          ]
        ]
      ]

  rest_writing-IsConsistent : (p : ℕ) (w : World) → IsConsistent w → IsConsistent (rest_writing p w)
  unfolding rest_writing
  rest_writing-IsConsistent p w a = elim (Bool-cases (w.heap p).writing) [
    | inl e ↦
        rw (rest_writing, e)
          (IsConsistent-same {v = w}
            (record {
              users = refl;
              state = λ q. ground (arith, ==_iff p q);
              username = λ q. ground (arith, ==_iff p q);
            })
            a)
    | inr e ↦ rw (rest_writing, e) a
  ]

  close_each-IsConsistent :
      (ps : List ℕ) (w : World) → IsConsistent w → Returns IsConsistent (close_each json ps w)
  unfolding close_each
  close_each-IsConsistent [] w a = a
  close_each-IsConsistent (p ∷ ps) w a =
      Returns-bind IsConsistent IsConsistent (close json p w) _ (close-IsConsistent json p w a)
        (λ v b. close_each-IsConsistent ps v b)

  at_time-IsConsistent : (t : ℕ) (w : World) → IsConsistent w → IsConsistent (record w { now = t })
  at_time-IsConsistent t w a =
      IsConsistent-same (record { users = refl; state = λ q. refl; username = λ q. refl }) a

  after_write-IsConsistent :
      (end : WriteEnd) (p : ℕ) (w : World)
      → IsConsistent w
      → Returns IsConsistent (after_write json end p w)
  after_write-IsConsistent emptied p w a = rest_writing-IsConsistent p w a
  after_write-IsConsistent would_block p w a = a
  after_write-IsConsistent broken p w a = close-IsConsistent json p w a

  -- A new connection, where no connection is logged in.
  new-IsConsistent :
      (fd p : ℕ) (w : World)
      → is_authenticated (w.heap p).state ≡ false
      → IsConsistent w
      → IsConsistent (set_conn p (new_connection fd w.now) w)
  new-IsConsistent fd p w free a = record {
    distinct = a.distinct;
    to_conn = λ n q h. ground (arith, ==_iff p q, a.to_conn n q h, free);
    to_user = λ q h. ground (arith, ==_iff p q, a.to_user q, h);
  }

  accept_one-IsConsistent :
      (fd p : ℕ) (added : Bool) (w : World)
      → is_authenticated (w.heap p).state ≡ false
      → IsConsistent w
      → Returns IsConsistent (accept_one fd p added w)
  unfolding accept_one
  accept_one-IsConsistent fd p true w free a =
      IsConsistent-same {v = set_conn p (new_connection fd w.now) w}
        (record { users = refl; state = λ q. refl; username = λ q. refl })
        (new-IsConsistent fd p w free a)
  accept_one-IsConsistent fd p false w free a = tt

  tick-IsConsistent :
      (timeout : ℕ) (w : World) → IsConsistent w → Returns IsConsistent (tick json timeout w)
  unfolding tick
  tick-IsConsistent timeout w a =
      close_each-IsConsistent (silent w.now w.heap timeout w.managed) w a

  module _ {κ} {K : Type κ} where
    abbrev After : World × K → Type 0
    After r = IsConsistent r.0

    accept_loop-After :
        (accept : K → World → Accepted × K)
        → ((k : K) (w : World) → IsFree w (accept k w).0)
        → (n : ℕ) (k : K) (w : World) → IsConsistent w
        → Returns After (accept_loop accept n k w)
    unfolding accept_loop
    accept_loop-After accept free zero k w a = tt
    accept_loop-After accept free (suc n) k w a =
        round (accept k w).0 (accept k w).1 (free k w)
          (λ l v b. accept_loop-After accept free n l v b)
      where
        round :
            (t : Accepted) (l : K)
            → IsFree w t
            → ((l : K) (v : World) → IsConsistent v → Returns After (accept_loop accept n l v))
            → Returns After (elim t as (λ t. Run (World × K)) [
              | accepted fd p added ↦ (accept_one fd p added w >>= λ v. accept_loop accept n l v)
              | accept_again ↦ done (w, l)
              | accept_failed ↦ done (w, l)
            ])
        round (accepted fd p added) l here next =
            Returns-bind IsConsistent After (accept_one fd p added w) _
              (accept_one-IsConsistent fd p added w here a) (λ v b. next l v b)
        round accept_again l here next = a
        round accept_failed l here next = a

    on_read-After :
        (recv : K → ℕ → Received × K) (p : ℕ) (k : K) (w : World)
        → IsConsistent w
        → Returns After (on_read json recv p k w)
    unfolding on_read
    on_read-After recv p k w a =
        Returns-bind (λ (r : Bool × Connection × K). IsSameSession (w.heap p) r.1) After
          (read_loop recv (suc (Buffer.writable_bytes (w.heap p).read_buf)) w.now k (w.heap p)) _
          (read_loop-IsSameSession recv (suc (Buffer.writable_bytes (w.heap p).read_buf)) w.now k
            (w.heap p))
          (λ end s.
            let read = set_conn p end.1 w in
            let size = suc (Buffer.readable_bytes (end.1).read_buf) in
            let b = set_conn-IsConsistent p end.1 w s a in
            Returns-bind IsConsistent After
              (if end.0 then close json p read else decode_loop json size p read)
              (λ v. done (v, end.2))
              (Returns-either IsConsistent end.0 (close json p read) (decode_loop json size p read)
                (close-IsConsistent json p read b) (decode_loop-IsConsistent size p read b))
              (λ v c. c))

    on_write-After :
        (send_to : K → Bytes → Sent × K) (p : ℕ) (k : K) (w : World)
        → IsConsistent w
        → Returns After (on_write json send_to p k w)
    unfolding on_write
    on_write-After send_to p k w a =
        Returns-bind (λ (r : WriteEnd × Connection × K). IsSameSession (w.heap p) r.1) After
          (write_loop send_to (suc (Buffer.readable_bytes (w.heap p).write_buf)) w.now k (w.heap p))
          _
          (write_loop-IsSameSession send_to (suc (Buffer.readable_bytes (w.heap p).write_buf)) w.now
            k (w.heap p))
          (λ end s.
            let written = set_conn p end.1 w in
            Returns-bind IsConsistent After (after_write json end.0 p written)
              (λ v. done (v, end.2))
              (after_write-IsConsistent end.0 p written (set_conn-IsConsistent p end.1 w s a))
              (λ v c. c))

    pub call-IsConsistent :
        (sys : Kernel K)
        → ((k : K) (w : World) → IsFree w (sys.accept k w).0)
        → (c : Callback) (k : K) (w : World) → IsConsistent w
        → Returns After (call json sys c k w)
    unfolding call
    call-IsConsistent sys free accept_all k w a =
        accept_loop-After sys.accept free (1 + sys.waiting k) k (record w { now = sys.now k })
          (at_time-IsConsistent (sys.now k) w a)
    call-IsConsistent sys free (read_from p) k w a =
        on_read-After (sys.recv (w.heap p).fd) p k (record w { now = sys.now k })
          (at_time-IsConsistent (sys.now k) w a)
    call-IsConsistent sys free (write_to p) k w a =
        on_write-After (sys.send_to (w.heap p).fd) p k (record w { now = sys.now k })
          (at_time-IsConsistent (sys.now k) w a)
    call-IsConsistent sys free tick_all k w a =
        Returns-bind IsConsistent After (tick json timeout_sec (record w { now = sys.now k }))
          (λ v. done (v, k))
          (tick-IsConsistent timeout_sec (record w { now = sys.now k })
            (at_time-IsConsistent (sys.now k) w a))
          (λ v b. b)
