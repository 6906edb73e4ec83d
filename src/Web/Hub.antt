-- ===== src/Web/Hub.antt =====
-- src/server/ws_hub.{h,cpp}, and sendText, sendPing and close of src/server/ws_connection.cpp: who
-- receives a message, and how a connection joins and leaves.
pub mod Delivery
use chat_room.Common.{ℕ, Bool, true, Option, none, some, [], ◌∷◌, if◌then◌else◌}
use chat_room.Common.Text.{Bytes, codes, text_eq, is_empty}
use chat_room.Common.Dict
use chat_room.Common.Dict.{Dict}
use chat_room.Common.Keys.{nat_key}
use chat_room.Common.Run.{Run, done, thrown, no_fuel, ◌>>=◌, or_throw}
use chat_room.Buffer
use chat_room.Json.{Json}
use chat_room.Reactor
use chat_room.Room.{Room, Message, add_message, set_on_message}
use chat_room.Ws.Frame
use chat_room.Web.World.{
  Web, Sockets, Host, Spot, new_ws, closed, is_active, ws_read, ws_write, set_ws, arm, forget,
  close_fd,
}

-- writeBuf_.append(bytes), and EPOLLOUT where nothing was being written.
unfoldable pub queue_bytes : ℕ → Bytes → Sockets → Sockets
queue_bytes p bytes s =
    let c = s.ws p in
    let queued = Buffer.append bytes c.write_buf in
    if c.writing
    then set_ws p (record c { write_buf = queued }) s
    else arm c.fd (set_ws p (record c { write_buf = queued; writing = true }) s)

-- WsConnection::sendText
unfoldable pub send_text : ℕ → Bytes → Sockets → Sockets
send_text p payload s =
    if is_active (s.ws p).state then queue_bytes p (Frame.encode_text payload) s else s

-- WsConnection::sendPing
unfoldable pub send_ping : ℕ → Bytes → Sockets → Sockets
send_ping p payload s =
    if is_active (s.ws p).state then queue_bytes p (Frame.encode_ping payload) s else s

-- The close handler of adoptConnection: conns_.erase(c); delete c.
unfoldable pub on_ws_close : Host → ℕ → Sockets → Sockets
on_ws_close host p s =
    set_ws p (host.freed_ws (s.ws p)) (record s { clients = Dict.erase p s.clients })

-- The end of WsConnection::close: fd_ is read after the close handler has deleted the connection.
abbrev pub close_own_fd : ℕ → Sockets → Sockets
close_own_fd p s = close_fd (s.ws p).fd s

-- WsConnection::close
unfoldable pub close : Host → ℕ → Sockets → Sockets
unfolding on_ws_close
close host p s =
    let c = s.ws p in
    if is_active c.state
    then close_own_fd p
        (on_ws_close host p (forget c.fd (set_ws p (record c { state = closed }) s)))
    else s

-- WsConnection::start
abbrev pub start : Bool → ℕ → Sockets → Run Sockets
start added p s = do
  reactor ← or_throw (
      Reactor.add_fd added (s.ws p).fd Reactor.epoll_in
        (record { on_read = some (ws_read p); on_write = some (ws_write p) }) s.reactor)
  done (record s { reactor = reactor })

-- conns_.insert(conn)
abbrev pub insert_client : ℕ → Sockets → Sockets
insert_client p s = record s { clients = Dict.insert p tt s.clients }

-- WsHub::adoptConnection
unfoldable pub adopt_connection : Spot → ℕ → Bytes → Sockets → Run Sockets
adopt_connection spot fd username s = do
  started ← start spot.added spot.address (set_ws spot.address (new_ws fd username) s)
  done (insert_client spot.address started)

-- WsHub::remove. `delete *it` uses an iterator that erase has made invalid: with the element still
-- readable there, it deletes the connection.
unfoldable pub remove : Host → ℕ → Sockets → Sockets
unfolding on_ws_close
remove host p s = if Dict.has p s.clients then on_ws_close host p s else s

-- Message::toJson
abbrev pub to_json : (json : Json) → Message → json.Value
to_json json m = json.set (codes "time") (json.integer m.time) (
    json.set (codes "content") (json.text m.content) (
      json.set (codes "room") (json.text m.room)
        (json.set (codes "from") (json.text m.from) json.null)))

-- WsHub::toWsJson_: none where dump throws.
unfoldable pub to_ws_json : Json → Message → Option Bytes
to_ws_json json m = json.dump (json.set (codes "type") (json.text (codes "chat")) (to_json json m))

-- if (c->isActive()) c->sendText(json);
unfoldable pub push_to : ℕ → Bytes → Sockets → Sockets
push_to p text s = if is_active (s.ws p).state then send_text p text s else s

-- The loop of WsHub::broadcast, over the snapshot.
unfoldable pub send_each : Dict ℕ (Unit {0}) → Bytes → Sockets → Sockets
send_each [] text s = s
send_each ((p, u) ∷ rest) text s = send_each rest text (push_to p text s)

-- WsHub::broadcast
unfoldable pub broadcast : Json → Message → Sockets → Run Sockets
unfolding to_ws_json send_each
broadcast json m s = do text ← or_throw (to_ws_json json m); done (send_each s.clients text s)

-- WsHub::onRoomMessage_
abbrev pub on_room_message : Json → Message → Sockets → Run Sockets
on_room_message json m s = broadcast json m s

-- What the constructor of WsHub subscribes to the room.
abbrev pub subscriber : Json → Message → Run Sockets → Run Sockets
subscriber json m r = r >>= λ s. on_room_message json m s

-- WsHub::WsHub and WsHub::~WsHub
abbrev pub subscribe : Json → Room (Run Sockets) → Room (Run Sockets)
subscribe json room = set_on_message (some (subscriber json)) room

abbrev pub unsubscribe : Room (Run Sockets) → Room (Run Sockets)
unsubscribe room = set_on_message none room

-- room_.addMessage(m), with the room and the sockets as the call leaves them. An exception of the
-- subscriber leaves the call with the message in the room.
abbrev pub tell_room : Message → Web → Room (Run Sockets) × Run Sockets
tell_room m w = add_message m w.room (done w.sockets)

-- room_.addMessage(m) in the try block of the text handler: the exception ends there.
abbrev pub caught_in : Web → Room (Run Sockets) → Run Sockets → Run Web
caught_in w room (done s) = done (record w { room = room; sockets = s })
caught_in w room thrown = done (record w { room = room })
caught_in w room no_fuel = no_fuel

unfoldable pub add_message_caught : Message → Web → Run Web
add_message_caught m w = let told = tell_room m w in caught_in w told.0 told.1

-- The text handler of adoptConnection, with the JSON read: none where value throws.
unfoldable pub chat_message : (json : Json) → Bytes → json.Value → Web → Option Message
chat_message json username j w = elim (json.value j (codes "type") []) [
  | none ↦ none
  | some type ↦
      if text_eq type (codes "chat")
      then elim (json.value j (codes "content") []) [
        | none ↦ none
        | some content ↦
            if is_empty content then none else elim (json.value j (codes "room") (codes "lobby")) [
              | none ↦ none
              | some room ↦
                  some (record { from = username; room = room; content = content; time = w.now })
            ]
      ]
      else none
]

-- The text handler of adoptConnection. Whatever its try block throws is dropped.
unfoldable pub on_text : Json → ℕ → Bytes → Web → Run Web
unfolding chat_message add_message_caught
on_text json p payload w = elim (json.parse payload) [
  | none ↦ done w
  | some j ↦ elim (chat_message json (w.sockets.ws p).username j w) [
    | none ↦ done w
    | some m ↦ add_message_caught m w
  ]
]
