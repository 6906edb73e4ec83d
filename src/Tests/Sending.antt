-- ===== src/Tests/Sending.antt =====
-- The theorem on the loop of src/tcp/connection.cpp over send, with a kernel that takes three bytes
-- at a time.
use chat_room.Common.{min, [], ◌++◌, refl, arith, length, take}
use chat_room.Common.Text.{Bytes, codes}
use chat_room.Common.Run.{Ends}
use chat_room.Buffer.{Buffer, IsValid}
use chat_room.Tcp.World.{Connection, new_connection}
use chat_room.Tcp.Io.{Sent, sent, write_loop}
use chat_room.Tcp.Loops.Transmit.{IsTaken, IsSent, write_loop-Ends}

abbrev pub toy_send : Bytes → Bytes → Sent × Bytes
toy_send out bytes = (sent (min 3 (length bytes)), out ++ take (min 3 (length bytes)) bytes)

toy_law : (out bytes : Bytes) → IsTaken bytes out (toy_send out bytes).1 (toy_send out bytes).0
toy_law out bytes = (omega arith, refl)

abbrev waiting : Buffer
waiting = record { storage = codes "hello"; read_pos = 0; write_pos = 5 }

waiting-IsValid : IsValid waiting
waiting-IsValid = record {
  ordered = omega arith;
  inside = omega arith;
  nonempty = omega arith;
  bounded = omega arith;
}

abbrev talker : Connection
talker = record (new_connection 4 100) { write_buf = waiting }

write_loop-Ends_example :
    Ends (λ r. IsSent [] waiting r.0 r.2 (r.1).write_buf) (write_loop toy_send 10 100 [] talker)
unfolding chat_room.Buffer.readable_bytes
write_loop-Ends_example =
    write_loop-Ends toy_send (λ out. out) toy_law 10 100 [] talker waiting-IsValid (omega arith)
