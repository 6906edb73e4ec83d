-- ===== src/Web/Routes.antt =====
-- src/server/http_handler.cpp: the routes under /api. A handler answers on the connection at an address;
-- an exception leaves it where the source has no try block.
pub mod Guard
pub mod Quiet
use chat_room.Common.{ℕ, true, Option, none, some, [], if◌then◌else◌, ◌&&◌, not, map}
use chat_room.Common.Text.{Bytes, codes, text_eq, is_empty}
use chat_room.Common.Dict
use chat_room.Common.Dict.{Dict}
use chat_room.Common.Int.{ℤ, pos}
use chat_room.Common.Keys.{text_key}
use chat_room.Common.Run.{Run, done, ◌>>=◌, or_throw}
use chat_room.Http.Request.{HttpRequest, get_query}
use chat_room.Http.Response.{HttpResponse, with_code, body_json}
use chat_room.Json.{Json}
use chat_room.Room.{Message, add_user, remove_user, has_user, users, recent_messages}
use chat_room.TokenStore
use chat_room.Web.Connection.{send}
use chat_room.Web.Hub.{to_json, tell_room}
use chat_room.Web.Numbers.{to_int64}
use chat_room.Web.World.{Web}

abbrev pub Handler : Type 0
Handler = HttpRequest → ℕ → Web → Run Web

module _ (json : Json) where
  -- jsonResp
  unfoldable pub json_resp : ℕ → json.Value → Run HttpResponse
  json_resp code j = do text ← or_throw (json.dump j); done (body_json text (with_code code))

  -- c.send(jsonResp(code, j))
  unfoldable pub answer : ℕ → json.Value → ℕ → Web → Run Web
  answer code j p w = do resp ← json_resp code j; done (send resp p w)

  -- {{key, value}}
  abbrev pub object : Bytes → json.Value → json.Value
  object key v = json.set key v json.null

  -- c.send(jsonResp(code, {{"error", what}}))
  unfoldable pub refuse : ℕ → Bytes → ℕ → Web → Run Web
  refuse code what p w = answer code (object (codes "error") (json.text what)) p w

  -- The try block that takes the token out of a body.
  unfoldable pub body_token : Bytes → Bytes
  body_token body = elim (json.parse body) [
    | none ↦ []
    | some j ↦
        if json.contains j (codes "token")
        then elim (json.get_text j (codes "token")) [ none ↦ [] | some tok ↦ tok ]
        else []
  ]

  -- The token of a request, as requireToken looks for it.
  unfoldable pub find_token : HttpRequest → Bytes
  find_token req =
      let tok = get_query (codes "token") req in
      if is_empty tok && not (is_empty req.body) then body_token req.body else tok

  -- requireToken: the user, or none where it has answered with 401.
  unfoldable pub require_token : HttpRequest → ℕ → Web → Run (Option Bytes × Web)
  require_token req p w =
      let tok = find_token req in
      let user = TokenStore.lookup tok w.tokens in
      if is_empty tok
      then (refuse 401 (codes "missing token") p w >>= λ v. done (none, v))
      else if is_empty user
      then (refuse 401 (codes "invalid token") p w >>= λ v. done (none, v))
      else done (some user, w)

  -- if (st != 0) return;
  abbrev pub authorized : HttpRequest → ℕ → Web → (Bytes → Web → Run Web) → Run Web
  authorized req p w serve =
      require_token req p w >>= λ r. elim r.0 [ none ↦ done r.1 | some user ↦ serve user r.1 ]

  -- The end of the login route: the user is free.
  unfoldable pub log_in : Bytes → ℕ → Web → Run Web
  log_in user p w =
      let issued = TokenStore.issue user w.tokens in
      answer 200
        (json.set (codes "username") (json.text user) (
          json.set (codes "token") (json.text issued.0)
            (json.set (codes "ok") (json.flag true) json.null)))
        p (record w { room = add_user user w.room; tokens = issued.1 })

  -- The login route, with the username read.
  unfoldable pub login_as : Bytes → ℕ → Web → Run Web
  unfolding log_in
  login_as user p w =
      if is_empty user
      then refuse 400 (codes "missing username") p w
      else if has_user user w.room
      then refuse 409 (codes "username taken") p w
      else log_in user p w

  -- POST /api/login
  unfoldable pub login : Handler
  unfolding login_as
  login req p w =
      if text_eq req.method (codes "POST")
      then elim (json.parse req.body) [
        | none ↦ refuse 400 (codes "bad json") p w
        | some j ↦ (do user ← or_throw (json.value j (codes "username") []); login_as user p w)
      ]
      else refuse 405 (codes "method not allowed") p w

  -- GET /api/users
  unfoldable pub list_users : Handler
  unfolding require_token
  list_users req p w =
      authorized req p w
        (λ user v. answer 200 (object (codes "users") (json.texts (users v.room))) p v)

  -- The query's "since": 0 where it is missing or stoll throws.
  unfoldable pub since_of : HttpRequest → ℤ
  since_of req =
      let s_since = get_query (codes "since") req in
      if is_empty s_since then pos 0 else elim (to_int64 s_since) [ none ↦ pos 0 | some n ↦ n ]

  -- GET /api/messages
  unfoldable pub get_messages : HttpRequest → ℕ → Web → Run Web
  unfolding since_of
  get_messages req p w =
      let msgs = recent_messages (since_of req) w.room in
      answer 200 (object (codes "messages") (json.array (map (to_json json) msgs))) p w

  -- room->addMessage(m), outside of a try block.
  unfoldable pub add_to_room : Message → Web → Run Web
  add_to_room m w =
      let told = tell_room m w in told.1 >>= λ s. done (record w { room = told.0; sockets = s })

  -- The end of POST /api/messages: the content is there.
  unfoldable pub say : Bytes → Bytes → ℕ → Web → Run Web
  unfolding add_to_room
  say user content p w = do
    v ←
        add_to_room (record { from = user; room = codes "lobby"; content = content; time = w.now })
          w
    answer 200 (object (codes "ok") (json.flag true)) p v

  -- POST /api/messages
  unfoldable pub post_message : Bytes → HttpRequest → ℕ → Web → Run Web
  unfolding say
  post_message user req p w = elim (json.parse req.body) [
    | none ↦ refuse 400 (codes "bad json") p w
    | some j ↦ (do
      content ← or_throw (json.value j (codes "content") [])
      if is_empty content then refuse 400 (codes "empty content") p w else say user content p w)
  ]

  -- /api/messages
  unfoldable pub messages : Handler
  unfolding require_token get_messages post_message
  messages req p w = authorized req p w (λ user v.
      if text_eq req.method (codes "GET")
      then get_messages req p v
      else if text_eq req.method (codes "POST")
      then post_message user req p v
      else refuse 405 (codes "method not allowed") p v)

  -- The token that the logout route revokes.
  unfoldable pub token_to_revoke : HttpRequest → Bytes
  token_to_revoke req =
      let tok = get_query (codes "token") req in if is_empty tok then body_token req.body else tok

  -- if (!tok.empty()) tokens->revoke(tok); room->removeUser(u);
  unfoldable pub log_out : Bytes → Bytes → Web → Web
  log_out tok user w = record w {
    tokens = if is_empty tok then w.tokens else TokenStore.revoke tok w.tokens;
    room = remove_user user w.room;
  }

  -- POST /api/logout
  unfoldable pub logout : Handler
  unfolding require_token token_to_revoke log_out
  logout req p w = authorized req p w (λ user v.
      answer 200 (object (codes "ok") (json.flag true)) p (log_out (token_to_revoke req) user v))

  -- registerHttpRoutes
  unfoldable pub register_http_routes : Dict Bytes Handler → Dict Bytes Handler
  register_http_routes routes = Dict.insert (codes "/api/logout") logout (
      Dict.insert (codes "/api/messages") messages (
        Dict.insert (codes "/api/users") list_users
          (Dict.insert (codes "/api/login") login routes)))
