-- ===== src/Web/Io.antt =====
-- The loops over recv and send that src/server/http_connection.cpp and src/server/ws_connection.cpp
-- share, on a buffer. The two calls are parameters over a state K of the kernel.
pub mod Receive
pub mod Drain
use chat_room.Common.{ℕ, zero, suc, Bool, true, false, ◌==◌, if◌then◌else◌}
use chat_room.Common.Text.{Bytes, is_empty}
use chat_room.Common.Run.{Run, done, no_fuel}
use chat_room.Buffer
use chat_room.Buffer.{Buffer}
use chat_room.Tcp.Io.{
  Received, received, recv_again, recv_failed, Sent, sent, send_again, send_failed, WriteEnd,
  emptied, would_block, broken,
}

-- char tmp[4096]
abbrev pub chunk : ℕ
chunk = 4096

-- while(true){ recv(fd_, tmp, ...); ... }: the result says whether it ends in close().
unfoldable pub receive {κ} :
    {K : Type κ} → (K → ℕ → Received × K) → ℕ → K → Buffer → Run (Bool × Buffer × K)
receive recv zero k b = no_fuel
receive recv (suc n) k b =
    let r = recv k chunk in
    elim r.0 [
      | received bytes ↦
          let rest = receive recv n r.1 (Buffer.append bytes b) in
          if is_empty bytes then done (true, b, r.1) else rest
      | recv_again ↦ done (false, b, r.1)
      | recv_failed ↦ done (true, b, r.1)
    ]

-- while(writeBuf_.readableBytes()>0){ send(fd_, ...); ... }: it ends with the buffer empty, on EAGAIN,
-- or in close(). Each round but the last takes a byte out.
unfoldable pub flush {κ} :
    {K : Type κ} → (K → Bytes → Sent × K) → ℕ → K → Buffer → Run (WriteEnd × Buffer × K)
flush send_to zero k b = no_fuel
flush send_to (suc n) k b =
    let r = send_to k (Buffer.view b) in
    if Buffer.readable_bytes b == 0 then done (emptied, b, k) else elim r.0 [
      | sent m ↦
          let rest = flush send_to n r.1 (Buffer.consume m b) in
          if m == 0 then done (broken, b, r.1) else rest
      | send_again ↦ done (would_block, b, r.1)
      | send_failed ↦ done (broken, b, r.1)
    ]
