-- ===== src/Web/Hub/Delivery.antt =====
-- Who receives what is said in the room: WsHub::broadcast of src/server/ws_hub.cpp.
use chat_room.Common.{
  ℕ, Bool, true, some, [], ◌∷◌, ◌==◌, ==_iff, if◌then◌else◌, ◌&&◌, ◌≡◌, refl, ◌∙◌, inl, inr,
  Bool-cases, arith,
}
use chat_room.Common.Text.{Bytes}
use chat_room.Common.Dict
use chat_room.Common.Dict.{Dict, IsDistinct}
use chat_room.Common.Keys.{nat_key}
use chat_room.Common.Run.{done}
use chat_room.Buffer
use chat_room.Json.{Json}
use chat_room.Room.{Message, add_message, push_message}
use chat_room.Ws.Frame
use chat_room.Web.Routes.{add_to_room}
use chat_room.Web.World.{Web, Sockets, WsConnection, is_active}
use chat_room.Web.Hub.{
  queue_bytes, send_text, push_to, send_each, broadcast, to_ws_json, subscriber, on_text,
  chat_message, add_message_caught, tell_room,
}

-- A connection with bytes behind those that it has to write.
abbrev pub with_bytes : Bytes → WsConnection → WsConnection
with_bytes bytes c = record c { write_buf = Buffer.append bytes c.write_buf; writing = true }

push_to-ws :
    (p q : ℕ) (text : Bytes) (s : Sockets)
    → (push_to p text s).ws q ≡ (
        if (p == q) && is_active (s.ws q).state
        then with_bytes (Frame.encode_text text) (s.ws q)
        else s.ws q)
unfolding push_to send_text queue_bytes
push_to-ws p q text s = elim (Bool-cases (is_active (s.ws p).state)) [
  | inl a ↦ elim (Bool-cases (s.ws p).writing) [
    | inl e ↦ rw (push_to, send_text, queue_bytes, a, e) (ground (arith, ==_iff p q, a))
    | inr e ↦ rw (push_to, send_text, queue_bytes, a, e) (ground (arith, ==_iff p q, a))
  ]
  | inr a ↦ rw (push_to, a) (ground (arith, ==_iff p q, a))
]

-- Whether the hub has a connection that is active at `q`.
abbrev pub is_listening : ℕ → Sockets → Bool
is_listening q s = Dict.has q s.clients && is_active (s.ws q).state

send_each-ws :
    (q : ℕ) (l : Dict ℕ (Unit {0})) (text : Bytes) (s : Sockets)
    → IsDistinct l
    → (send_each l text s).ws q ≡ (
        if Dict.has q l && is_active (s.ws q).state
        then with_bytes (Frame.encode_text text) (s.ws q)
        else s.ws q)
unfolding send_each Dict.has
send_each-ws q [] text s d = refl
send_each-ws q ((p, u) ∷ rest) text s d =
    send_each-ws q rest text (push_to p text s) d.1
    ∙ rw (push_to-ws p q text s) (ground (arith, ==_iff p q, d.0))

push_to-clients : (p : ℕ) (text : Bytes) (s : Sockets) → (push_to p text s).clients ≡ s.clients
unfolding push_to send_text queue_bytes
push_to-clients p text s = ground arith

push_to-closed_fds :
    (p : ℕ) (text : Bytes) (s : Sockets) → (push_to p text s).closed_fds ≡ s.closed_fds
unfolding push_to send_text queue_bytes
push_to-closed_fds p text s = ground arith

send_each-clients :
    (l : Dict ℕ (Unit {0})) (text : Bytes) (s : Sockets)
    → ((send_each l text s).clients ≡ s.clients) × ((send_each l text s).closed_fds ≡ s.closed_fds)
unfolding send_each
send_each-clients [] text s = (refl, refl)
send_each-clients ((p, u) ∷ rest) text s = (
  (send_each-clients rest text (push_to p text s)).0 ∙ push_to-clients p text s,
  (send_each-clients rest text (push_to p text s)).1 ∙ push_to-closed_fds p text s,
)

-- What a broadcast of a text makes of the sockets: each connection that listens has one text frame more
-- to write, every other is as before, and none joins, leaves or closes.
pub record Delivered (text : Bytes) (s t : Sockets) : Type 0 where
  pub frames :
      (q : ℕ)
      → t.ws q ≡ (if is_listening q s then with_bytes (Frame.encode_text text) (s.ws q) else s.ws q)
  pub clients : t.clients ≡ s.clients
  pub closed_fds : t.closed_fds ≡ s.closed_fds

-- WsHub::broadcast of a message that can be printed: every active connection of the hub has exactly
-- one text frame more to write, which holds the message's JSON, and no other connection has; none
-- joins, leaves or closes. The set of the hub has no connection twice.
pub broadcast-Delivered :
    (json : Json) (m : Message) (text : Bytes) (s : Sockets)
    → IsDistinct s.clients
    → to_ws_json json m ≡ some text
    → (t : Sockets) × (broadcast json m s ≡ done t) × Delivered text s t
unfolding broadcast
broadcast-Delivered json m text s d e = (
  send_each s.clients text s,
  rw (broadcast, e) refl,
  record {
    frames = λ q. send_each-ws q s.clients text s d;
    clients = (send_each-clients s.clients text s).0;
    closed_fds = (send_each-clients s.clients text s).1;
  },
)

-- What a message said in the room makes of the server.
pub record Said (m : Message) (text : Bytes) (w v : Web) : Type 0 where
  pub messages : v.room.messages ≡ push_message m w.room.messages
  pub users : v.room.users ≡ w.room.users
  pub tokens : v.tokens ≡ w.tokens
  pub http : v.http ≡ w.http
  pub delivered : Delivered text w.sockets v.sockets

module _ (json : Json) (m : Message) (text : Bytes) (w : Web)
    (subscribed : w.room.on_message ≡ some (subscriber json)) (d : IsDistinct w.sockets.clients)
    (printed : to_ws_json json m ≡ some text) where
  abbrev heard : Sockets
  heard = (broadcast-Delivered json m text w.sockets d printed).0

  told_lem : (tell_room m w).1 ≡ done heard
  unfolding add_message
  told_lem = rw subscribed (broadcast-Delivered json m text w.sockets d printed).1

  abbrev after : Web
  after = record w { room = (tell_room m w).0; sockets = heard }

  after-Said : Said m text w after
  unfolding add_message
  after-Said = record {
    messages = refl;
    users = refl;
    tokens = refl;
    http = refl;
    delivered = (broadcast-Delivered json m text w.sockets d printed).2;
  }

  -- A message that arrives in a text frame, while the hub is subscribed to the room and its JSON can
  -- be printed: it is the last message of the room, and every active connection of the hub has
  -- exactly one text frame more to write, which holds it; the users, the tokens and the HTTP
  -- connections stay. The route for messages does the same with a message that it is given. The set
  -- of the hub has no connection twice.
  pub on_text-Said :
      (p : ℕ) (payload : Bytes) (j : json.Value)
      → json.parse payload ≡ some j
      → chat_message json (w.sockets.ws p).username j w ≡ some m
      → (v : Web) × (on_text json p payload w ≡ done v)
        × (add_to_room json m w ≡ done v)
        × Said m text w v
  unfolding on_text add_message_caught add_to_room
  on_text-Said p payload j parsed chat = (
    after,
    rw (on_text, parsed, chat, add_message_caught, told_lem) refl,
    rw (add_to_room, told_lem) refl,
    after-Said,
  )
