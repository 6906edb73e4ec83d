-- ===== src/Tests/Sessions.antt =====
-- The theorems on src/tcp at a concrete world, with a toy JSON: a text is the object with one member
-- of every name, and it is printed as its members in order.
use chat_room.Common.{
  ℕ, refl, none, some, List, [], ◌∷◌, ◌+◌, ◌++◌, ◌==◌, true, Option, arith, length, inl, inr,
  Bool-cases, if◌then◌else◌, not,
}
use chat_room.Common.Int.{ℤ, pos_part}
use chat_room.Common.Text.{Bytes, codes, is_empty}
use chat_room.Common.Run.{Returns}
use chat_room.Json.{Json}
use chat_room.Common.Dict
use chat_room.Packet
use chat_room.Packet.{Packet}
use chat_room.Reactor
use chat_room.Tcp.World.{World, new_connection, closed, is_authenticated}
use chat_room.Tcp.Io.{received, recv_again, sent}
use chat_room.Reactor.Loop.{events, wait_failed}
use chat_room.Tcp.Main.{accepted, accept_again, Kernel, Opened, init, main}
use chat_room.Tcp.Sessions.Callbacks.{IsFree}
use chat_room.Tcp.Handler.{on_packet}
use chat_room.Tcp.Sessions.{IsConsistent}
use chat_room.Tcp.Sessions.Main.{main-IsConsistent}
use chat_room.Tcp.Sessions.Packets.{on_packet-IsConsistent}
use chat_room.Tcp.Sessions.Ghost.{TakesName, on_packet-closed}

abbrev join : List Bytes → Bytes
join [] = []
join (t ∷ ts) = t ++ join ts

abbrev pub toy : Json
toy = record {
  Value = Bytes;
  parse = λ body. if is_empty body then none else some body;
  value = λ j key default. some j;
  contains = λ j key. not (is_empty j);
  get_text = λ j key. some j;
  dump = λ j. some j;
  null = [];
  set = λ key v j. j ++ key ++ v;
  text = λ t. t;
  texts = join;
  number = λ n. n ∷ [];
  integer = λ n. pos_part n ∷ [];
  array = join;
  flag = λ b. if b then codes "true" else codes "false";
}

-- Two connections, at 1 and at 2, that nobody has logged in on.
abbrev pub lobby : World
lobby = record {
  heap = λ p. new_connection (p + 4) 100;
  users = [];
  managed = (1, tt) ∷ (2, tt) ∷ [];
  reactor = Reactor.empty;
  closed_fds = [];
  now = 100;
}

lobby-IsConsistent : IsConsistent lobby
unfolding Dict.lookup
lobby-IsConsistent = record {
  distinct = tt;
  to_conn = λ n q h. ground (arith, h);
  to_user = λ q h. ground (arith, h);
}

abbrev pub login : Packet
login = record { type = Packet.msg_login; body = codes "ann" }

on_packet-IsConsistent_example : Returns IsConsistent (on_packet toy 1 login lobby)
on_packet-IsConsistent_example = on_packet-IsConsistent toy 1 login lobby lobby-IsConsistent

-- Connection 1 is closed.
abbrev left : World
left = record lobby { heap = λ p. record (new_connection (p + 4) 100) { state = closed } }

on_packet-closed_example : Returns (TakesName toy 1 (codes "ann") left) (on_packet toy 1 login left)
unfolding Dict.has
on_packet-closed_example =
    on_packet-closed toy 1 (codes "ann") left login (codes "ann") refl refl refl refl refl refl

-- One connection, a login on it, a silence, and then an error of epoll_wait.
abbrev sys : Kernel ℕ
sys = record {
  recv = λ fd k n. if k == 3 then (received (Packet.encode login), 4) else (recv_again, k);
  send_to = λ fd k bytes. (sent (length bytes), k);
  accept = λ k w.
      if is_authenticated (w.heap 1).state
      then (accept_again, k)
      else if k == 1
      then (accepted 5 1 true, 2)
      else (accept_again, k);
  waiting = λ k. if k == 1 then 1 else 0;
  now = λ k. k;
  wait = λ k.
      if k == 0
      then (events ((3, Reactor.epoll_in) ∷ []), 1)
      else if k == 2
      then (events ((5, Reactor.epoll_in) ∷ []), 3)
      else if k == 4
      then (events [], 100)
      else (wait_failed, k);
  running = λ k. true;
}

sys-IsFree : (k : ℕ) (w : World) → IsFree w (sys.accept k w).0
sys-IsFree k w = elim (Bool-cases (is_authenticated (w.heap 1).state)) [
  | inl e ↦ rw (e) tt
  | inr e ↦ elim (Bool-cases (k == 1)) [ inl f ↦ rw (e, f) e | inr f ↦ rw (e, f) tt ]
]

abbrev opened : Opened
opened = record { fd = 3; bound = true; listening = true; added = true }

main-IsConsistent_example :
    Returns
      (λ (r : Option ℤ × World × ℕ). IsConsistent r.1)
      (main toy sys opened 4 0 (init lobby.heap 0))
main-IsConsistent_example = main-IsConsistent toy sys sys-IsFree lobby.heap 0 (λ q. refl) opened 4 0
