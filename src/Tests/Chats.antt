-- ===== src/Tests/Chats.antt =====
-- The theorem on broadcasts in a world in which ann, at 1, and bob, at 2, are logged in.
use chat_room.Common.{
  refl, [], ◌∷◌, ◌+◌, ◌==◌, ==_iff, ◌≡◌, ◌&&◌, not, arith, if◌then◌else◌, Bool-cases, inl, inr,
}
use chat_room.Common.Text.{codes, text_eq, text_eq_iff}
use chat_room.Common.Dict
use chat_room.Common.Keys.{text_key}
use chat_room.Buffer
use chat_room.Packet
use chat_room.Packet.{Packet}
use chat_room.Reactor
use chat_room.Tcp.World.{World, new_connection, authenticated, is_authenticated, broadcast_but}
use chat_room.Tcp.Sessions.{IsConsistent}
use chat_room.Tcp.Delivery.{broadcast_but-Delivers}

abbrev chatting : World
chatting = record {
  heap = λ p.
      if p == 1
      then record (new_connection 5 100) { state = authenticated; username = codes "ann" }
      else if p == 2
      then record (new_connection 6 100) { state = authenticated; username = codes "bob" }
      else new_connection (p + 4) 100;
  users = (codes "ann", 1) ∷ (codes "bob", 2) ∷ [];
  managed = (1, tt) ∷ (2, tt) ∷ [];
  reactor = Reactor.empty;
  closed_fds = [];
  now = 100;
}

chatting-IsConsistent : IsConsistent chatting
unfolding Dict.lookup Dict.has text_eq
chatting-IsConsistent = record {
  distinct = (refl, (refl, tt));
  to_conn = λ n q h. ground (arith, h, text_eq_iff (codes "ann") n, text_eq_iff (codes "bob") n);
  to_user = λ q h. elim (Bool-cases (q == 1)) [
    | inl e ↦ ground (arith, e, ==_iff q 1)
    | inr e ↦ elim (Bool-cases (q == 2)) [
      | inl f ↦ ground (arith, e, f, ==_iff q 2)
      | inr f ↦ ground (arith, e, f, h)
    ]
  ];
}

abbrev hello : Packet
hello = record { type = Packet.msg_system; body = codes "hello" }

broadcast_but-Delivers_example : ((broadcast_but 1 hello chatting).heap 2).write_buf ≡ (
    if is_authenticated (chatting.heap 2).state && (not (2 == 0) && not (2 == 1))
    then Buffer.append (Packet.encode hello) (chatting.heap 2).write_buf
    else (chatting.heap 2).write_buf)
broadcast_but-Delivers_example = broadcast_but-Delivers 1 2 hello chatting chatting-IsConsistent
