-- ===== src/Tcp/Handler.antt =====
-- src/tcp/message_handler.{h,cpp}, and Connection::close with the close callback of src/tcp/main.cpp.
use chat_room.Common.{ℕ, Bool, true, false, none, some, [], ◌∷◌, ◌++◌, ◌==◌, if◌then◌else◌}
use chat_room.Common.Text.{Bytes, codes, is_empty}
use chat_room.Common.Dict
use chat_room.Common.Dict.{Dict}
use chat_room.Common.Keys.{nat_key}
use chat_room.Common.Run.{Run, done, ◌>>=◌, or_throw}
use chat_room.Json.{Json}
use chat_room.Packet
use chat_room.Packet.{Packet}
use chat_room.Reactor.{remove_fd}
use chat_room.Tcp.Users
use chat_room.Tcp.World.{
  World, closed, is_authenticated, is_closed, set_conn, set_username, send, broadcast,
  broadcast_but,
}

-- The answers' texts, in UTF-8: "already logged in", "malformed message", "the name may not be
-- empty", "the name is taken", "not logged in", "no such user", "online", "offline".
abbrev pub already_logged_in : Bytes
already_logged_in = 229 ∷ 183 ∷ 178 ∷ 231 ∷ 153 ∷ 187 ∷ 229 ∷ 189 ∷ 149 ∷ []

abbrev pub malformed : Bytes
malformed =
    230 ∷ 182 ∷ 136 ∷ 230 ∷ 129 ∷ 175 ∷ 230 ∷ 160 ∷ 188 ∷ 229 ∷ 188 ∷ 143 ∷ 233 ∷ 148 ∷ 153 ∷ 232
    ∷ 175 ∷ 175 ∷ []

abbrev pub empty_name : Bytes
empty_name =
    231 ∷ 148 ∷ 168 ∷ 230 ∷ 136 ∷ 183 ∷ 229 ∷ 144 ∷ 141 ∷ 228 ∷ 184 ∷ 141 ∷ 232 ∷ 131 ∷ 189 ∷ 228
    ∷ 184 ∷ 186 ∷ 231 ∷ 169 ∷ 186 ∷ []

abbrev pub name_taken : Bytes
name_taken =
    231 ∷ 148 ∷ 168 ∷ 230 ∷ 136 ∷ 183 ∷ 229 ∷ 144 ∷ 141 ∷ 229 ∷ 183 ∷ 178 ∷ 229 ∷ 173 ∷ 152 ∷ 229
    ∷ 156 ∷ 168 ∷ []

abbrev pub not_logged_in : Bytes
not_logged_in = 230 ∷ 156 ∷ 170 ∷ 231 ∷ 153 ∷ 187 ∷ 229 ∷ 189 ∷ 149 ∷ []

abbrev pub no_such_user : Bytes
no_such_user =
    229 ∷ 175 ∷ 185 ∷ 232 ∷ 177 ∷ 161 ∷ 231 ∷ 148 ∷ 168 ∷ 230 ∷ 136 ∷ 183 ∷ 228 ∷ 184 ∷ 141 ∷ 229
    ∷ 173 ∷ 152 ∷ 229 ∷ 156 ∷ 168 ∷ []

abbrev pub online : Bytes
online = 228 ∷ 184 ∷ 138 ∷ 231 ∷ 186 ∷ 191 ∷ []

abbrev pub offline : Bytes
offline = 231 ∷ 166 ∷ 187 ∷ 231 ∷ 186 ∷ 191 ∷ []

-- ConnectionManager::remove
abbrev pub remove_managed : ℕ → World → World
remove_managed p w = record w { managed = Dict.erase p w.managed }

-- users_.remove(conn)
abbrev pub remove_user : ℕ → World → World
remove_user p w = record w { users = Users.remove p w.users }

-- The end of Connection::close: state_ = CLOSED; ::close(fd_).
abbrev pub finish_close : ℕ → World → World
finish_close p w = record (set_conn p (record (w.heap p) { state = closed }) w) {
  closed_fds = (w.heap p).fd ∷ w.closed_fds;
}

module _ (json : Json) where
  -- A packet whose body is the text of `j`.
  abbrev pub dumped : ℕ → json.Value → Run Packet
  dumped type j = do body ← or_throw (json.dump j); done (record { type = type; body = body })

  -- MessageHandler::sendAck
  unfoldable pub send_ack : ℕ → Bool → Bytes → World → Run World
  send_ack conn ok err w =
      let j = json.set (codes "ok") (json.flag ok) json.null in
      let full = if ok then j else json.set (codes "error") (json.text err) j in
      do pkt ← dumped Packet.msg_login_ack full; done (send conn pkt w)

  -- MessageHandler::broadcastSystem
  unfoldable pub broadcast_system : Bytes → World → Run World
  broadcast_system text w = do
    pkt ← dumped Packet.msg_system (
        json.set (codes "time") (json.number w.now)
          (json.set (codes "content") (json.text text) json.null))
    done (broadcast pkt w)

  abbrev users_json : World → json.Value
  users_json w = json.set (codes "users") (json.texts (Users.usernames w.users)) json.null

  -- MessageHandler::broadcastUserList
  unfoldable pub broadcast_user_list : World → Run World
  broadcast_user_list w = do
    pkt ← dumped Packet.msg_user_list (users_json w)
    done (broadcast pkt w)

  -- MessageHandler::onClose
  unfoldable pub on_close : ℕ → World → Run World
  on_close conn w =
      let c = w.heap conn in
      if is_authenticated c.state
      then (do
        w1 ← broadcast_system (c.username ++ offline) (remove_user conn w)
        broadcast_user_list w1)
      else done w

  -- Connection::close, with the close callback of main.cpp.
  unfoldable pub close : ℕ → World → Run World
  close p w = if is_closed (w.heap p).state then done w else (do
    w1 ← on_close p (record w { reactor = remove_fd (w.heap p).fd w.reactor })
    done (finish_close p (remove_managed p w1)))

  -- MessageHandler::handleLogin, from the name on.
  unfoldable pub login_as : ℕ → Bytes → World → Run World
  login_as conn username w =
      if is_empty username
      then send_ack conn false empty_name w
      else (let added = Users.add username conn w.users in
          if added.0
          then (do
            w1 ← send_ack conn true [] (set_username conn username (record w { users = added.1 }))
            w2 ← broadcast_system (username ++ online) w1
            broadcast_user_list w2)
          else send_ack conn false name_taken w)

  -- MessageHandler::handleLogin
  unfoldable pub handle_login : ℕ → Packet → World → Run World
  handle_login conn pkt w =
      if is_authenticated (w.heap conn).state
      then send_ack conn false already_logged_in w
      else elim (json.parse pkt.body) [
        | none ↦ send_ack conn false malformed w
        | some j ↦ or_throw (json.value j (codes "username") []) >>= λ name. login_as conn name w
      ]

  -- MessageHandler::handleChat, from the content on.
  unfoldable pub say : ℕ → Bytes → World → Run World
  say conn content w = if is_empty content then done w else (do
    bp ← dumped Packet.msg_chat_broad (
        json.set (codes "time") (json.number w.now) (
          json.set (codes "content") (json.text content)
            (json.set (codes "from") (json.text (w.heap conn).username) json.null)))
    done (broadcast_but conn bp w))

  -- MessageHandler::handleChat
  unfoldable pub handle_chat : ℕ → Packet → World → Run World
  handle_chat conn pkt w =
      if is_authenticated (w.heap conn).state
      then elim (json.parse pkt.body) [
        | none ↦ done w
        | some j ↦ or_throw (json.value j (codes "content") []) >>= λ content. say conn content w
      ]
      else send_ack conn false not_logged_in w

  -- MessageHandler::handlePrivate, from the two members on.
  unfoldable pub tell : ℕ → Bytes → Bytes → World → Run World
  tell conn to content w =
      let target = Users.get to w.users in
      if target == 0 then send_ack conn false no_such_user w else (do
        bp ← dumped Packet.msg_private (
            json.set (codes "to") (json.text to) (
              json.set (codes "content") (json.text content)
                (json.set (codes "from") (json.text (w.heap conn).username) json.null)))
        done (send target bp w))

  -- MessageHandler::handlePrivate
  unfoldable pub handle_private : ℕ → Packet → World → Run World
  handle_private conn pkt w =
      if is_authenticated (w.heap conn).state
      then elim (json.parse pkt.body) [
        | none ↦ done w
        | some j ↦ or_throw (json.value j (codes "to") []) >>= λ to.
            or_throw (json.value j (codes "content") []) >>= λ content. tell conn to content w
      ]
      else send_ack conn false not_logged_in w

  -- MessageHandler::handleUserList
  unfoldable pub handle_user_list : ℕ → World → Run World
  handle_user_list conn w = do
    bp ← dumped Packet.msg_user_list (users_json w)
    done (send conn bp w)

  -- MessageHandler::handlePing
  unfoldable pub handle_ping : ℕ → World → Run World
  handle_ping conn w = done (send conn (record { type = Packet.msg_pong; body = [] }) w)

  -- MessageHandler::handleLogOut
  unfoldable pub handle_log_out : ℕ → World → Run World
  handle_log_out conn w =
      if is_closed (w.heap conn).state then done w else close conn (remove_user conn w)

  -- MessageHandler::onPacket
  unfoldable pub on_packet : ℕ → Packet → World → Run World
  on_packet conn pkt w =
      let t = pkt.type in
      if t == Packet.msg_login
      then handle_login conn pkt w
      else if t == Packet.msg_chat
      then handle_chat conn pkt w
      else if t == Packet.msg_private
      then handle_private conn pkt w
      else if t == Packet.msg_user_list
      then handle_user_list conn w
      else if t == Packet.msg_ping
      then handle_ping conn w
      else if t == Packet.msg_logout
      then handle_log_out conn w
      else done w
