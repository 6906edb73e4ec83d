-- ===== src/Tests/Receiving.antt =====
-- The theorems on the loops of src/tcp/connection.cpp, with a kernel that holds pending bytes and
-- counts those that it has given out.
use chat_room.Common.{ℕ, ◌+◌, ◌≤◌, [], ◌∷◌, refl, arith, length, take, drop, length-take}
use chat_room.Common.Text.{Bytes}
use chat_room.Common.Run.{Ends}
use chat_room.Buffer
use chat_room.Buffer.View.{init-IsValid}
use chat_room.Packet
use chat_room.Tcp.Io.{Received, received, recv_again, on_read}
use chat_room.Tcp.Loops.{buf_of}
use chat_room.Tcp.Loops.Receive.{
  IsCounted, IsReceived, IsAccounted, on_read-Ends, on_read-IsAccounted,
}
use chat_room.Tests.Sessions.{toy, lobby, login}

abbrev Kernel : Type 0
Kernel = Bytes × ℕ

abbrev toy_recv : Kernel → ℕ → Received × Kernel
toy_recv ([], n) room = (recv_again, ([], n))
toy_recv (x ∷ pending, n) room = (
  received (take room (x ∷ pending)),
  (drop room (x ∷ pending), n + length (take room (x ∷ pending))),
)

abbrev toy_taken : Kernel → ℕ
toy_taken k = k.1

toy_law :
    (k : Kernel) (room : ℕ)
    → IsCounted room (toy_taken k) (toy_taken (toy_recv k room).1) (toy_recv k room).0
toy_law ([], n) room = refl
toy_law (x ∷ pending, n) room = (omega (arith, length-take room (x ∷ pending)), refl)

abbrev waiting : Kernel
waiting = (Packet.encode login, 0)

on_read-Ends_example :
    Ends
      (λ r. IsReceived (toy_taken waiting) (toy_taken r.1) (buf_of 1 lobby) (buf_of 1 r.0))
      (on_read toy toy_recv 1 waiting lobby)
on_read-Ends_example = on_read-Ends toy_recv toy_taken toy_law toy 1 waiting lobby init-IsValid

fresh_account : IsAccounted toy_recv toy_taken toy_law toy 1 0 waiting lobby
unfolding Buffer.init
fresh_account = record { valid = init-IsValid; size = refl; all_kept = refl }

on_read-IsAccounted_example :
    Ends
      (λ r. IsAccounted toy_recv toy_taken toy_law toy 1 0 r.1 r.0 × (toy_taken r.1 ≤ 0 + 1024))
      (on_read toy toy_recv 1 waiting lobby)
on_read-IsAccounted_example =
    on_read-IsAccounted toy_recv toy_taken toy_law toy 1 0 waiting lobby fresh_account
