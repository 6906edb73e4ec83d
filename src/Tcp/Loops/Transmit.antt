-- ===== src/Tcp/Loops/Transmit.antt =====
-- The loop of src/tcp/connection.cpp over send ends, and the bytes go out in order. `send_to` is any
-- function that takes a part from the front of what it is offered, and `out` is what it has taken.
use chat_room.Common.{
  ℕ, zero, suc, ◌≤◌, ◌<◌, false, [], ◌++◌, ◌==◌, ==_iff, if◌then◌else◌, ◌≡◌, refl, sym, ap, ◌∙◌,
  inl, inr, Bool-cases, arith, length, take, drop, take-append-drop, append_assoc, append-nil,
  length-eq-zero,
}
use chat_room.Common.Text.{Bytes}
use chat_room.Common.Run.{Run, done, thrown, no_fuel, Ends}
use chat_room.Buffer
use chat_room.Buffer.{Buffer, IsValid}
use chat_room.Buffer.View.{consume-IsValid, view-consume, readable-length}
use chat_room.Tcp.World.{Connection}
use chat_room.Tcp.Io.{
  Sent, sent, send_again, send_failed, WriteEnd, emptied, would_block, broken, write_loop,
}
use chat_room.Tcp.Loops.{readable-consume}

-- What send answers to an offer of `bytes`, with what it has taken before and after.
abbrev pub IsTaken : Bytes → Bytes → Bytes → Sent → Type 0
IsTaken bytes before after (sent m) = (m ≤ length bytes) × (after ≡ before ++ take m bytes)
IsTaken bytes before after send_again = after ≡ before
IsTaken bytes before after send_failed = after ≡ before

-- Nothing waits where the loop ends with the buffer empty.
abbrev pub AllOut : WriteEnd → Buffer → Type 0
AllOut emptied b = Buffer.view b ≡ []
AllOut would_block b = Unit
AllOut broken b = Unit

-- What was taken and what still waits make up what was taken and waited before.
pub record IsSent (before : Bytes) (b : Buffer) (end : WriteEnd) (after : Bytes) (c : Buffer)
    : Type 0 where
  pub valid : IsValid c
  pub in_order : after ++ Buffer.view c ≡ before ++ Buffer.view b
  pub all_out : AllOut end c

module _ {κ} {K : Type κ} (send_to : K → Bytes → Sent × K) (out : K → Bytes)
    (law : (k : K) (bytes : Bytes)
      → IsTaken bytes (out k) (out (send_to k bytes).1) (send_to k bytes).0) where
  abbrev Sends : K → Connection → WriteEnd × Connection × K → Type 0
  Sends k c r = IsSent (out k) c.write_buf r.0 (out r.2) (r.1).write_buf

  stays :
      (k l : K) (c : Connection) (end : WriteEnd)
      → IsValid c.write_buf
      → AllOut end c.write_buf
      → out l ≡ out k
      → Sends k c (end, c, l)
  stays k l c end v waits same = record {
    valid = v;
    in_order = ap (λ t. t ++ Buffer.view c.write_buf) same;
    all_out = waits;
  }

  -- One round with some bytes left, where the rest of the loop is known to end.
  round-Ends :
      (n now : ℕ) (k : K) (c : Connection)
      → IsValid c.write_buf
      → Buffer.readable_bytes c.write_buf < suc n
      → ((l : K) (d : Connection)
          → IsValid d.write_buf
          → Buffer.readable_bytes d.write_buf < n
          → Ends (Sends l d) (write_loop send_to n now l d))
      → (Buffer.readable_bytes c.write_buf == 0) ≡ false
      → (t : Sent) (l : K) → IsTaken (Buffer.view c.write_buf) (out k) (out l) t
      → Ends (Sends k c) (elim t [
        | sent m ↦
            (let rest =
                write_loop send_to n now l
                  (record c { write_buf = Buffer.consume m c.write_buf; last_active = now }) in
              if m == 0 then done (broken, c, l) else rest)
        | send_again ↦ done (would_block, c, l)
        | send_failed ↦ done (broken, c, l)
      ])
  round-Ends n now k c v h rest some_left (sent m) l law = elim (Bool-cases (m == 0)) [
    | inl e ↦ rw e (
        stays k l c broken v tt (
          law.1
          ∙ ap (λ (t : ℕ). out k ++ take t (Buffer.view c.write_buf)) ((==_iff m 0).0 e)
          ∙ append-nil (out k)))
    | inr e ↦ rw e (
        let d : Connection = record c {
          write_buf = Buffer.consume m c.write_buf;
          last_active = now;
        } in
        let valid : IsValid d.write_buf = consume-IsValid c.write_buf v m in
        let less : Buffer.readable_bytes d.write_buf < n =
          rw (readable-consume m c.write_buf v) (ground (arith, h, some_left, e)) in
        onward d (write_loop send_to n now l d) (rest l d valid less) (
          ap (λ t. t ++ Buffer.view d.write_buf) law.1
          ∙ ap (λ t. (out k ++ take m (Buffer.view c.write_buf)) ++ t)
              (view-consume c.write_buf v m)
          ∙ append_assoc (out k) (take m (Buffer.view c.write_buf))
              (drop m (Buffer.view c.write_buf))
          ∙ ap (λ t. out k ++ t) (take-append-drop m (Buffer.view c.write_buf))))
  ]
    where
      onward :
          (d : Connection) (r : Run (WriteEnd × Connection × K))
          → Ends (Sends l d) r
          → out l ++ Buffer.view d.write_buf ≡ out k ++ Buffer.view c.write_buf
          → Ends (Sends k c) r
      onward d (done r) s e = record {
        valid = s.valid;
        in_order = s.in_order ∙ e;
        all_out = s.all_out;
      }
      onward d thrown s e = tt
      onward d no_fuel s e = s
  round-Ends n now k c v h rest some_left send_again l law = stays k l c would_block v tt law
  round-Ends n now k c v h rest some_left send_failed l law = stays k l c broken v tt law

  -- The loop over send ends. The bytes that send has taken, followed by those that still wait, are
  -- those that it had taken before, followed by those that waited: none is lost, doubled or moved.
  -- Where it ends because the buffer is empty, none waits.
  pub write_loop-Ends :
      (n now : ℕ) (k : K) (c : Connection)
      → IsValid c.write_buf
      → Buffer.readable_bytes c.write_buf < n
      → Ends
          (λ r. IsSent (out k) c.write_buf r.0 (out r.2) (r.1).write_buf)
          (write_loop send_to n now k c)
  unfolding write_loop
  write_loop-Ends zero now k c v h = omega (arith, h)
  write_loop-Ends (suc n) now k c v h = elim (Bool-cases (Buffer.readable_bytes c.write_buf == 0)) [
    | inl e ↦ rw e (
        stays k k c emptied v
          (length-eq-zero (Buffer.view c.write_buf) (
            sym (readable-length c.write_buf v)
            ∙ (==_iff (Buffer.readable_bytes c.write_buf) 0).0 e))
          refl)
    | inr e ↦
        let queued = Buffer.view c.write_buf in
        rw e (
          round-Ends n now k c v h (λ l d. write_loop-Ends n now l d) e (send_to k queued).0
            (send_to k queued).1 (law k queued))
  ]
