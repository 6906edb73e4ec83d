-- ===== src/Tcp/Io.antt =====
-- src/tcp/connection.cpp (onRead, onWrite), src/tcp/connection_manager.cpp and the accept loop and
-- the events of src/tcp/main.cpp and src/server/reactor.cpp. The system calls recv and send are
-- parameters over a state K of the kernel; each loop has as much fuel as bytes it can move, and one.
use chat_room.Common.{
  ℕ, zero, suc, ◌+◌, Bool, true, false, some, List, [], ◌∷◌, ◌==◌, if◌then◌else◌, ltb,
}
use chat_room.Common.Text.{Bytes, is_empty}
use chat_room.Common.Dict
use chat_room.Common.Dict.{Dict}
use chat_room.Common.Int.{ℤ, pos, negsuc, to_size}
use chat_room.Common.Keys.{nat_key}
use chat_room.Common.Run.{Run, done, no_fuel, ◌>>=◌, or_throw}
use chat_room.Buffer
use chat_room.Json.{Json}
use chat_room.Packet
use chat_room.Packet.{Packet}
use chat_room.Reactor
use chat_room.Tcp.World.{World, Connection, new_connection, set_conn, read_from, write_to}
use chat_room.Tcp.Handler.{on_packet, close}

-- recv: the bytes it wrote (none of them at the end of the stream), or -1 with EAGAIN, or another
-- error.
pub data Received : Type 0 where
  received : Bytes → Received
  recv_again : Received
  recv_failed : Received

-- send: how many bytes it took, or -1 with EAGAIN, or another error.
pub data Sent : Type 0 where
  sent : ℕ → Sent
  send_again : Sent
  send_failed : Sent

-- The first loop of Connection::onRead. The result says whether it ends in close().
unfoldable pub read_loop {κ} :
    {K : Type κ} → (K → ℕ → Received × K) → ℕ → ℕ → K → Connection → Run (Bool × Connection × K)
read_loop recv zero now k c = no_fuel
read_loop recv (suc n) now k c =
    let r = recv k (Buffer.writable_bytes c.read_buf) in
    elim r.0 [
      | received bytes ↦
          let rest =
            read_loop recv n now r.1
              (record c { read_buf = Buffer.write_bytes bytes c.read_buf; last_active = now }) in
          if is_empty bytes then done (true, c, r.1) else rest
      | recv_again ↦ done (false, c, r.1)
      | recv_failed ↦ done (true, c, r.1)
    ]

abbrev pub is_zero : ℤ → Bool
is_zero (pos n) = n == 0
is_zero (negsuc n) = false

-- readBuf_.consume(len)
abbrev pub consume_read : ℕ → ℕ → World → World
consume_read p len w =
    let c = w.heap p in set_conn p (record c { read_buf = Buffer.consume len c.read_buf }) w

-- The second loop of Connection::onRead.
unfoldable pub decode_loop : Json → ℕ → ℕ → World → Run World
decode_loop json zero p w = no_fuel
decode_loop json (suc n) p w =
    let b = (w.heap p).read_buf in
    if Buffer.readable_bytes b == 0
    then done w
    else (let r = Packet.decode (Buffer.peek b) (Buffer.readable_bytes b) in
        if r.is_ok
        then (on_packet json p r.packet (consume_read p (to_size r.consumed) w) >>= λ v.
            decode_loop json n p v)
        else if is_zero r.consumed
        then close json p w
        else done w)

-- Connection::onRead
unfoldable pub on_read {κ} :
    {K : Type κ} → Json → (K → ℕ → Received × K) → ℕ → K → World → Run (World × K)
on_read json recv p k w = do
  end ← read_loop recv (suc (Buffer.writable_bytes (w.heap p).read_buf)) w.now k (w.heap p)
  v ←
      (if end.0
        then close json p (set_conn p end.1 w)
        else decode_loop json (suc (Buffer.readable_bytes (end.1).read_buf)) p (set_conn p end.1 w))
  done (v, end.2)

-- The loop of Connection::onWrite: it ends with the buffer empty, on EAGAIN, or in close().
pub data WriteEnd : Type 0 where
  emptied : WriteEnd
  would_block : WriteEnd
  broken : WriteEnd

unfoldable pub write_loop {κ} :
    {K : Type κ} → (K → Bytes → Sent × K) → ℕ → ℕ → K → Connection → Run (WriteEnd × Connection × K)
write_loop send_to zero now k c = no_fuel
write_loop send_to (suc n) now k c =
    let r = send_to k (Buffer.view c.write_buf) in
    if Buffer.readable_bytes c.write_buf == 0 then done (emptied, c, k) else elim r.0 [
      | sent m ↦
          let rest =
            write_loop send_to n now r.1
              (record c { write_buf = Buffer.consume m c.write_buf; last_active = now }) in
          if m == 0 then done (broken, c, r.1) else rest
      | send_again ↦ done (would_block, c, r.1)
      | send_failed ↦ done (broken, c, r.1)
    ]

-- The end of Connection::onWrite.
unfoldable pub rest_writing : ℕ → World → World
rest_writing p w =
    let c = w.heap p in
    if c.writing
    then record (set_conn p (record c { writing = false }) w) {
      reactor = Reactor.modify_fd c.fd Reactor.epoll_in w.reactor;
    }
    else w

abbrev pub after_write : Json → WriteEnd → ℕ → World → Run World
after_write json emptied p w = done (rest_writing p w)
after_write json would_block p w = done w
after_write json broken p w = close json p w

-- Connection::onWrite
unfoldable pub on_write {κ} :
    {K : Type κ} → Json → (K → Bytes → Sent × K) → ℕ → K → World → Run (World × K)
on_write json send_to p k w = do
  end ← write_loop send_to (suc (Buffer.readable_bytes (w.heap p).write_buf)) w.now k (w.heap p)
  v ← after_write json end.0 p (set_conn p end.1 w)
  done (v, end.2)

-- ConnectionManager::add
abbrev pub add_managed : ℕ → World → World
add_managed p w = record w { managed = Dict.insert p tt w.managed }

-- The connections of ConnectionManager::tick that have been silent for too long.
unfoldable pub silent : ℕ → (ℕ → Connection) → ℕ → Dict ℕ (Unit {0}) → List ℕ
silent now heap timeout [] = []
silent now heap timeout ((p, u) ∷ rest) =
    let others = silent now heap timeout rest in
    if ltb ((heap p).last_active + timeout) now then p ∷ others else others

unfoldable pub close_each : Json → List ℕ → World → Run World
close_each json [] w = done w
close_each json (p ∷ ps) w = close json p w >>= λ v. close_each json ps v

-- ConnectionManager::tick
unfoldable pub tick : Json → ℕ → World → Run World
tick json timeout w = close_each json (silent w.now w.heap timeout w.managed) w

-- What the accept loop of main.cpp does with one descriptor: `p` is the address of the new
-- Connection, and `added` whether epoll_ctl succeeds.
unfoldable pub accept_one : ℕ → ℕ → Bool → World → Run World
accept_one fd p added w = do
  reactor ← or_throw (
      Reactor.add_fd added fd Reactor.epoll_in
        (record { on_read = some (read_from p); on_write = some (write_to p) }) w.reactor)
  done (add_managed p (record (set_conn p (new_connection fd w.now) w) { reactor = reactor }))
