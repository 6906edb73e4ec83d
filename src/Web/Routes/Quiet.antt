-- ===== src/Web/Routes/Quiet.antt =====
-- The routes of src/server/http_handler.cpp and dispatch_ end, and leave what the connection has still to
-- read.
use chat_room.Common.{
  ℕ, Option, none, some, [], ◌∷◌, ==_iff, ◌≡◌, refl, ◌∙◌, inl, inr, Bool-cases, Option-cases, arith,
  All,
}
use chat_room.Common.Text.{Bytes, codes, text_eq, is_empty}
use chat_room.Common.Dict
use chat_room.Common.Dict.{Dict}
use chat_room.Common.Keys.{text_key}
use chat_room.Common.Run.{Run, done, ◌>>=◌, or_throw, Ends, Ends-bind, Ends-or_throw, Ends-either}
use chat_room.Http.Request.{HttpRequest}
use chat_room.Http.Request.Text.{starts_with}
use chat_room.Http.Response.{HttpResponse, body_json, with_code}
use chat_room.Json.{Json}
use chat_room.Room.{Message, add_message, add_user, remove_user, has_user}
use chat_room.TokenStore
use chat_room.Web.Connection.{send, mark_upgraded}
use chat_room.Web.Hub.{subscriber, tell_room, broadcast, to_ws_json, send_each}
use chat_room.Web.Routes.{
  Handler, authorized, answer, json_resp, refuse, require_token, find_token, log_in, login_as,
  login, list_users, get_messages, add_to_room, say, post_message, messages, log_out, logout,
  register_http_routes,
}
use chat_room.Web.Server.{
  dispatch, find_route, is_upgrade, handle_ws_upgrade, upgrade_user, static_response,
}
use chat_room.Web.Server.Forms.{handle_ws_upgrade_lem}
use chat_room.Web.World.{Web, Host}

-- A step that leaves what the connection at `p` has to read, and the subscriber of the room.
pub record Quiet (p : ℕ) (w v : Web) : Type 0 where
  pub read_buf : (v.http p).read_buf ≡ (w.http p).read_buf
  pub on_message : v.room.on_message ≡ w.room.on_message

pub send-Quiet : (resp : HttpResponse) (p : ℕ) (w u : Web) → Quiet p w u → Quiet p w (send resp p u)
unfolding send
send-Quiet resp p w u q = elim (Bool-cases (u.http p).writing) [
  | inl e ↦
      rw (send, e)
        (record { read_buf = ground (arith, ==_iff p p) ∙ q.read_buf; on_message = q.on_message })
  | inr e ↦
      rw (send, e)
        (record { read_buf = ground (arith, ==_iff p p) ∙ q.read_buf; on_message = q.on_message })
]

module _ (json : Json) (p : ℕ) (w : Web)
    (subscribed : w.room.on_message ≡ some (subscriber json)) where
  answer-Quiet :
      (code : ℕ) (j : json.Value) (u : Web)
      → Quiet p w u
      → Ends (Quiet p w) (answer json code j p u)
  unfolding answer json_resp
  answer-Quiet code j u q = ground_answer (json.dump j)
    where
      ground_answer :
          (o : Option Bytes)
          → Ends (Quiet p w) (
              (or_throw o >>= λ text. done (body_json text (with_code code))) >>= λ resp.
              done (send resp p u))
      ground_answer none = tt
      ground_answer (some text) = send-Quiet _ p w u q

  refuse-Quiet : (code : ℕ) (what : Bytes) → Ends (Quiet p w) (refuse json code what p w)
  unfolding refuse
  refuse-Quiet code what = answer-Quiet code _ w (record { read_buf = refl; on_message = refl })

  log_in-Quiet : (user : Bytes) → Ends (Quiet p w) (log_in json user p w)
  unfolding log_in add_user TokenStore.issue
  log_in-Quiet user = answer-Quiet 200 _ _ (record { read_buf = refl; on_message = refl })

  login_as-Quiet : (user : Bytes) → Ends (Quiet p w) (login_as json user p w)
  unfolding login_as
  login_as-Quiet user = elim (Bool-cases (is_empty user)) [
    | inl e ↦ rw (login_as, e) (refuse-Quiet 400 _)
    | inr e ↦ elim (Bool-cases (has_user user w.room)) [
      | inl f ↦ rw (login_as, e, f) (refuse-Quiet 409 _)
      | inr f ↦ rw (login_as, e, f) (log_in-Quiet user)
    ]
  ]

  login-Quiet : (req : HttpRequest) → Ends (Quiet p w) (login json req p w)
  unfolding login
  login-Quiet req = elim (Bool-cases (text_eq req.method (codes "POST"))) [
    | inr e ↦ rw (login, e) (refuse-Quiet 405 _)
    | inl e ↦ elim (Option-cases (json.parse req.body)) [
      | inl f ↦ rw (login, e, f) (refuse-Quiet 400 _)
      | inr (j, f) ↦
          rw (login, e, f)
            (Ends-or_throw (Quiet p w) (json.value j (codes "username") []) _
              (λ user. login_as-Quiet user))
    ]
  ]

  -- What requireToken comes to: the server as it is, or a response.
  abbrev IsStopped : Option Bytes × Web → Type 0
  IsStopped (none, v) = Quiet p w v
  IsStopped (some user, v) = v ≡ w

  require_token-IsStopped : (req : HttpRequest) → Ends IsStopped (require_token json req p w)
  unfolding require_token
  require_token-IsStopped req = elim (Bool-cases (is_empty (find_token json req))) [
    | inl e ↦
        rw (require_token, e)
          (Ends-bind (Quiet p w) IsStopped (refuse json 401 (codes "missing token") p w) _
            (refuse-Quiet 401 _) (λ v q. q))
    | inr e ↦ elim (Bool-cases (is_empty (TokenStore.lookup (find_token json req) w.tokens))) [
      | inl f ↦
          rw (require_token, e, f)
            (Ends-bind (Quiet p w) IsStopped (refuse json 401 (codes "invalid token") p w) _
              (refuse-Quiet 401 _) (λ v q. q))
      | inr f ↦ rw (require_token, e, f) refl
    ]
  ]

  -- A route behind requireToken.
  authorized-Quiet :
      (req : HttpRequest) (serve : Bytes → Web → Run Web)
      → ((user : Bytes) → Ends (Quiet p w) (serve user w))
      → Ends (Quiet p w) (authorized json req p w serve)
  authorized-Quiet req serve served =
      Ends-bind IsStopped (Quiet p w) (require_token json req p w) _ (require_token-IsStopped req)
        (λ r stopped. go r.0 r.1 stopped)
    where
      go :
          (o : Option Bytes) (v : Web)
          → IsStopped (o, v)
          → Ends (Quiet p w) (elim o [ none ↦ done v | some user ↦ serve user v ])
      go none v q = q
      go (some user) v q = rw q (served user)

  list_users-Quiet : (req : HttpRequest) → Ends (Quiet p w) (list_users json req p w)
  unfolding list_users
  list_users-Quiet req =
      authorized-Quiet req _
        (λ user. answer-Quiet 200 _ w (record { read_buf = refl; on_message = refl }))

  get_messages-Quiet : (req : HttpRequest) → Ends (Quiet p w) (get_messages json req p w)
  unfolding get_messages
  get_messages-Quiet req = answer-Quiet 200 _ w (record { read_buf = refl; on_message = refl })

  told-Ends : (m : Message) → Ends (λ s. Unit {0}) (tell_room m w).1
  unfolding add_message broadcast
  told-Ends m = rw subscribed (
      Ends-or_throw (λ s. Unit {0}) (to_ws_json json m)
        (λ text. done (send_each w.sockets.clients text w.sockets)) (λ text. tt))

  add_to_room-Quiet : (m : Message) → Ends (Quiet p w) (add_to_room json m w)
  unfolding add_to_room add_message
  add_to_room-Quiet m =
      Ends-bind (λ s. Unit {0}) (Quiet p w) (tell_room m w).1 _ (told-Ends m)
        (λ s u. record { read_buf = refl; on_message = refl })

  say-Quiet : (user content : Bytes) → Ends (Quiet p w) (say json user content p w)
  unfolding say
  say-Quiet user content =
      Ends-bind (Quiet p w) (Quiet p w) (add_to_room json _ w) _ (add_to_room-Quiet _)
        (λ v q. answer-Quiet 200 _ v q)

  post_message-Quiet :
      (user : Bytes) (req : HttpRequest) → Ends (Quiet p w) (post_message json user req p w)
  unfolding post_message
  post_message-Quiet user req = elim (Option-cases (json.parse req.body)) [
    | inl e ↦ rw (post_message, e) (refuse-Quiet 400 _)
    | inr (j, e) ↦
        rw (post_message, e)
          (Ends-or_throw (Quiet p w) (json.value j (codes "content") []) _ (λ content.
            Ends-either (Quiet p w) (is_empty content) (refuse json 400 (codes "empty content") p w)
              (say json user content p w) (refuse-Quiet 400 _) (say-Quiet user content)))
  ]

  messages-Quiet : (req : HttpRequest) → Ends (Quiet p w) (messages json req p w)
  unfolding messages
  messages-Quiet req = authorized-Quiet req _ (λ user.
      Ends-either (Quiet p w) (text_eq req.method (codes "GET")) (get_messages json req p w) _
        (get_messages-Quiet req)
        (Ends-either (Quiet p w) (text_eq req.method (codes "POST"))
          (post_message json user req p w) (refuse json 405 (codes "method not allowed") p w)
          (post_message-Quiet user req) (refuse-Quiet 405 _)))

  logout-Quiet : (req : HttpRequest) → Ends (Quiet p w) (logout json req p w)
  unfolding logout log_out TokenStore.revoke remove_user
  logout-Quiet req =
      authorized-Quiet req _
        (λ user. answer-Quiet 200 _ _ (record { read_buf = refl; on_message = refl }))

-- A handler that ends and is quiet, while the hub is subscribed to the room.
abbrev pub EndsQuietly : Json → Handler → Type 0
EndsQuietly json h =
    (req : HttpRequest) (p : ℕ) (w : Web)
    → w.room.on_message ≡ some (subscriber json)
    → Ends (Quiet p w) (h req p w)

abbrev FoundQuiet : Json → Option Handler → Type 0
FoundQuiet json none = Unit {0}
FoundQuiet json (some h) = EndsQuietly json h

find_route-FoundQuiet :
    (json : Json) (path : Bytes) (table : Dict Bytes Handler)
    → All (λ entry. EndsQuietly json entry.1) table
    → FoundQuiet json (find_route path table)
unfolding find_route
find_route-FoundQuiet json path [] ks = tt
find_route-FoundQuiet json path ((prefix, g) ∷ table) ks =
    elim (Bool-cases (starts_with prefix path)) [
      | inl e ↦ rw e ks.0
      | inr e ↦ rw e (find_route-FoundQuiet json path table ks.1)
    ]

module _ (host : Host) where
  registered : All (λ entry. EndsQuietly host.json entry.1) (register_http_routes host.json [])
  unfolding register_http_routes Dict.insert text_eq
  registered = (
    (λ req p w h. login-Quiet host.json p w h req),
    (
      (λ req p w h. list_users-Quiet host.json p w h req),
      (
        (λ req p w h. messages-Quiet host.json p w h req),
        ((λ req p w h. logout-Quiet host.json p w h req), tt),
      ),
    ),
  )

  handle_ws_upgrade-Quiet :
      (req : HttpRequest) (p : ℕ) (w : Web) → Quiet p w (handle_ws_upgrade host req p w)
  unfolding mark_upgraded
  handle_ws_upgrade-Quiet req p w =
      handle_ws_upgrade_lem (Quiet p w) host req p w
        (λ resp. send-Quiet resp p w w (record { read_buf = refl; on_message = refl }))
        (λ resp.
          send-Quiet resp p w (mark_upgraded (upgrade_user req w) p w)
            (record { read_buf = ground (arith, ==_iff p p); on_message = refl }))

  abbrev table : Dict Bytes Handler
  table = register_http_routes host.json []

  pub dispatch-EndsQuietly : EndsQuietly host.json (dispatch host table)
  unfolding dispatch
  dispatch-EndsQuietly req p w h =
      Ends-either (Quiet p w) (is_upgrade req) (done (handle_ws_upgrade host req p w)) _
        (handle_ws_upgrade-Quiet req p w)
        (go (find_route req.path table) (find_route-FoundQuiet host.json req.path table registered))
    where
      go :
          (o : Option Handler)
          → FoundQuiet host.json o
          → Ends (Quiet p w) (elim o [
            | some h ↦ h req p w
            | none ↦ done (send (static_response host.files w.webroot req.path) p w)
          ])
      go none k = send-Quiet _ p w w (record { read_buf = refl; on_message = refl })
      go (some g) k = k req p w h
