-- ===== src/Tcp/Sessions/IoLoops.antt =====
-- The loops over recv and send of src/tcp/connection.cpp change no session.
use chat_room.Common.{
  ℕ, zero, suc, Bool, true, false, ◌==◌, ==_iff, if◌then◌else◌, ◌≡◌, refl, inl, inr, Bool-cases,
  arith,
}
use chat_room.Common.Text.{Bytes, is_empty}
use chat_room.Common.Run.{Run, done, Returns, Returns-either}
use chat_room.Buffer
use chat_room.Tcp.World.{World, Connection, set_conn}
use chat_room.Tcp.Io.{
  Received, received, recv_again, recv_failed, Sent, sent, send_again, send_failed, WriteEnd,
  would_block, broken, read_loop, write_loop,
}
use chat_room.Tcp.Sessions.{IsConsistent, SameSessions, IsConsistent-same}

-- The same session: what the loops over recv and send leave.
abbrev pub IsSameSession : Connection → Connection → Type 0
IsSameSession c d = (d.state ≡ c.state) × (d.username ≡ c.username)

set_conn-SameSessions :
    (p : ℕ) (c : Connection) (w : World)
    → IsSameSession (w.heap p) c
    → SameSessions w (set_conn p c w)
set_conn-SameSessions p c w s = record {
  users = refl;
  state = λ q. ground (arith, ==_iff p q, s.0);
  username = λ q. ground (arith, ==_iff p q, s.1);
}

pub set_conn-IsConsistent :
    (p : ℕ) (c : Connection) (w : World)
    → IsSameSession (w.heap p) c
    → IsConsistent w
    → IsConsistent (set_conn p c w)
set_conn-IsConsistent p c w s a = IsConsistent-same (set_conn-SameSessions p c w s) a

module _ {κ} {K : Type κ} where
  pub read_loop-IsSameSession :
      (recv : K → ℕ → Received × K) (n now : ℕ) (k : K) (c : Connection)
      → Returns (λ r. IsSameSession c r.1) (read_loop recv n now k c)
  unfolding read_loop
  read_loop-IsSameSession recv zero now k c = tt
  read_loop-IsSameSession recv (suc n) now k c =
      round (recv k (Buffer.writable_bytes c.read_buf)).0
        (recv k (Buffer.writable_bytes c.read_buf)).1
        (λ l d. read_loop-IsSameSession recv n now l d)
    where
      round :
          (t : Received) (l : K)
          → ((l : K) (d : Connection)
              → Returns (λ r. IsSameSession d r.1) (read_loop recv n now l d))
          → Returns
              (λ r. IsSameSession c r.1)
              (elim t as (λ t. Run (Bool × Connection × K)) [
                | received bytes ↦
                    (let rest = read_loop recv n now l (record c {
                      read_buf = Buffer.write_bytes bytes c.read_buf;
                      last_active = now;
                    }) in
                      if is_empty bytes then done (true, c, l) else rest)
                | recv_again ↦ done (false, c, l)
                | recv_failed ↦ done (true, c, l)
              ])
      round (received bytes) l next =
          let d : Connection = record c {
            read_buf = Buffer.write_bytes bytes c.read_buf;
            last_active = now;
          } in
          Returns-either (λ (r : Bool × Connection × K). IsSameSession c r.1) (is_empty bytes)
            (done (true, c, l)) (read_loop recv n now l d) (refl, refl) (next l d)
      round recv_again l next = (refl, refl)
      round recv_failed l next = (refl, refl)

  pub write_loop-IsSameSession :
      (send_to : K → Bytes → Sent × K) (n now : ℕ) (k : K) (c : Connection)
      → Returns (λ r. IsSameSession c r.1) (write_loop send_to n now k c)
  unfolding write_loop
  write_loop-IsSameSession send_to zero now k c = tt
  write_loop-IsSameSession send_to (suc n) now k c =
      elim (Bool-cases (Buffer.readable_bytes c.write_buf == 0)) [
        | inl e ↦ rw (write_loop, e) (refl, refl)
        | inr e ↦
            rw (write_loop, e)
              (round (send_to k (Buffer.view c.write_buf)).0 (send_to k (Buffer.view c.write_buf)).1
                (λ l d. write_loop-IsSameSession send_to n now l d))
      ]
    where
      round :
          (t : Sent) (l : K)
          → ((l : K) (d : Connection)
              → Returns (λ r. IsSameSession d r.1) (write_loop send_to n now l d))
          → Returns
              (λ r. IsSameSession c r.1)
              (elim t as (λ t. Run (WriteEnd × Connection × K)) [
                | sent m ↦
                    (let rest = write_loop send_to n now l (record c {
                      write_buf = Buffer.consume m c.write_buf;
                      last_active = now;
                    }) in
                      if m == 0 then done (broken, c, l) else rest)
                | send_again ↦ done (would_block, c, l)
                | send_failed ↦ done (broken, c, l)
              ])
      round (sent m) l next =
          let d : Connection = record c {
            write_buf = Buffer.consume m c.write_buf;
            last_active = now;
          } in
          Returns-either (λ (r : WriteEnd × Connection × K). IsSameSession c r.1) (m == 0)
            (done (broken, c, l)) (write_loop send_to n now l d) (refl, refl) (next l d)
      round send_again l next = (refl, refl)
      round send_failed l next = (refl, refl)
