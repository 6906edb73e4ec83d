-- ===== src/Tcp/Loops.antt =====
-- The loop of src/tcp/connection.cpp that decodes packets ends, and leaves the received bytes.
pub mod Receive
pub mod Transmit
use chat_room.Common.{
  ℕ, zero, suc, ◌+◌, ◌-◌, ◌≤◌, ◌<◌, min, Bool, true, false, Option, none, some, List, [], ◌∷◌, ◌++◌,
  ◌==◌, ==_iff, if◌then◌else◌, not, ◌≡◌, ◌≢◌, refl, sym, ap, subst, ◌∙◌, inl, inr, Bool-cases,
  Option-cases, arith, ◌&&◌, length, length-drop,
}
use chat_room.Common.Text.{Bytes, codes, is_empty}
use chat_room.Common.Int.{ℤ, pos, negsuc, to_size, to_int32}
use chat_room.Common.Run.{
  Run, done, thrown, no_fuel, ◌>>=◌, or_throw, Ends, Ends-bind, Ends-or_throw, Ends-either,
}
use chat_room.Json.{Json}
use chat_room.Buffer
use chat_room.Buffer.{Buffer, IsValid}
use chat_room.Buffer.Space.{writable_lem, readable_lem}
use chat_room.Buffer.View.{
  consume-IsValid, view-consume, readable-length, write_bytes-IsValid, write_size, write_step,
  init-IsValid,
}
use chat_room.Packet
use chat_room.Packet.{Packet}
use chat_room.Tcp.World.{World, Connection, set_conn}
use chat_room.Tcp.Handler.{close, on_packet}
use chat_room.Tcp.Io.{
  Received, received, recv_again, recv_failed, Sent, sent, send_again, send_failed, WriteEnd,
  read_loop, decode_loop, consume_read, on_read, write_loop, is_zero,
}
use chat_room.Tcp.Reading.{SameReads, on_packet-SameReads, close-SameReads}

-- A packet that is accepted has at least its header and its type.
decode-consumed :
    (bytes : Bytes) (len : ℕ)
    → (Packet.decode bytes len).is_ok ≡ true
    → 5 ≤ to_size (Packet.decode bytes len).consumed
unfolding Packet.decode
decode-consumed bytes len h = ground arith

-- Reading a packet leaves the storage and the end of what was received.
pub record IsSameStore (b c : Buffer) : Type 0 where
  pub valid : IsValid c
  pub storage : c.storage ≡ b.storage
  pub write_pos : c.write_pos ≡ b.write_pos

pub readable-consume :
    (n : ℕ) (b : Buffer)
    → IsValid b
    → Buffer.readable_bytes (Buffer.consume n b) ≡ Buffer.readable_bytes b - n
readable-consume n b v =
    readable-length (Buffer.consume n b) (consume-IsValid b v n)
    ∙ ap length (view-consume b v n)
    ∙ length-drop n (Buffer.view b)
    ∙ ap (λ (t : ℕ). t - n) (sym (readable-length b v))

consume-IsSameStore : (n : ℕ) (b : Buffer) → IsValid b → IsSameStore b (Buffer.consume n b)
unfolding Buffer.consume
consume-IsSameStore n b v = record {
  valid = consume-IsValid b v n;
  storage = refl;
  write_pos = refl;
}

IsSameStore-trans : {b c d : Buffer} → IsSameStore b c → IsSameStore c d → IsSameStore b d
IsSameStore-trans s t = record {
  valid = t.valid;
  storage = t.storage ∙ s.storage;
  write_pos = t.write_pos ∙ s.write_pos;
}

IsSameStore-refl : (b : Buffer) → IsValid b → IsSameStore b b
IsSameStore-refl b v = record { valid = v; storage = refl; write_pos = refl }

abbrev pub buf_of : ℕ → World → Buffer
buf_of p w = (w.heap p).read_buf

module _ (json : Json) (p : ℕ) where
  consume_read_buf :
      (n : ℕ) (w : World) → buf_of p (consume_read p n w) ≡ Buffer.consume n (buf_of p w)
  consume_read_buf n w = ground (arith, ==_iff p p)

  pub close-IsSameStore :
      (w : World)
      → IsValid (buf_of p w)
      → Ends (λ u. IsSameStore (buf_of p w) (buf_of p u)) (close json p w)
  close-IsSameStore w v = kept (close json p w) (close-SameReads json p w)
    where
      kept :
          (r : Run World)
          → Ends (SameReads w) r
          → Ends (λ u. IsSameStore (buf_of p w) (buf_of p u)) r
      kept (done u) s = rw (s p) (IsSameStore-refl (buf_of p w) v)
      kept thrown s = tt
      kept no_fuel s = s

  -- Each round of the loop consumes at least five of the bytes that can be read.
  pub decode_loop-Ends :
      (n : ℕ) (w : World)
      → IsValid (buf_of p w)
      → Buffer.readable_bytes (buf_of p w) < n
      → Ends (λ u. IsSameStore (buf_of p w) (buf_of p u)) (decode_loop json n p w)
  unfolding decode_loop
  decode_loop-Ends zero w v h = omega (arith, h)
  decode_loop-Ends (suc n) w v h =
      let b = buf_of p w in
      let r = Packet.decode (Buffer.peek b) (Buffer.readable_bytes b) in
      let k = to_size r.consumed in
      elim (Bool-cases (Buffer.readable_bytes b == 0)) [
        | inl e ↦ rw e (IsSameStore-refl b v)
        | inr e ↦ elim (Bool-cases r.is_ok) [
          | inl ok ↦
              rw (e, ok)
                (Ends-bind (SameReads (consume_read p k w)) (λ u. IsSameStore b (buf_of p u))
                  (on_packet json p r.packet (consume_read p k w)) (λ u. decode_loop json n p u)
                  (on_packet-SameReads json p r.packet (consume_read p k w))
                  (λ u s.
                    onward (λ u v h. decode_loop-Ends n u v h) k u
                      (decode-consumed (Buffer.peek b) (Buffer.readable_bytes b) ok) e
                      (s p ∙ consume_read_buf k w)))
          | inr bad ↦
              rw (e, bad)
                (Ends-either (λ u. IsSameStore b (buf_of p u)) (is_zero r.consumed) _ _
                  (close-IsSameStore w v) (IsSameStore-refl b v))
        ]
      ]
    where
      later :
          (u : World) (r : Run World)
          → IsSameStore (buf_of p w) (buf_of p u)
          → Ends (λ t. IsSameStore (buf_of p u) (buf_of p t)) r
          → Ends (λ t. IsSameStore (buf_of p w) (buf_of p t)) r
      later u (done t) s h = IsSameStore-trans s h
      later u thrown s h = tt
      later u no_fuel s h = h

      onward :
          ((u : World)
            → IsValid (buf_of p u)
            → Buffer.readable_bytes (buf_of p u) < n
            → Ends (λ t. IsSameStore (buf_of p u) (buf_of p t)) (decode_loop json n p u))
          → (k : ℕ) (u : World) → 5 ≤ k
          → (Buffer.readable_bytes (buf_of p w) == 0) ≡ false
          → buf_of p u ≡ Buffer.consume k (buf_of p w)
          → Ends (λ t. IsSameStore (buf_of p w) (buf_of p t)) (decode_loop json n p u)
      onward rest k u five some_left same =
          let s : IsSameStore (buf_of p w) (buf_of p u) =
            rw same (consume-IsSameStore k (buf_of p w) v) in
          let less : Buffer.readable_bytes (buf_of p u) < n =
            rw (same, readable-consume k (buf_of p w) v) (ground (arith, h, some_left, five)) in
          later u (decode_loop json n p u) s (rest u s.valid less)
